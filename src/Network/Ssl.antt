-- ===== src/Network/Ssl.antt =====
-- internal/network-api/network-api.go: tcp/connectSSL.
use arduino_router.Prelude.{
  nat_eq, ℕ, Option, none, some, Bytes, List, [], ◌∷◌, ◌||◌, if◌then◌else◌, text, decimal, ltb,
  length, ◌==◌, get_elem?,
}
use arduino_router.Value.{Value, string}
use arduino_router.Conversion.{to_uint}
use arduino_router.Reply.{fail}
use arduino_router.Network.{Net, Sockets, Reply, join_host_port}
use arduino_router.Network.Tcp.{dialled}

module _ (s : Sockets) where
  -- A certificate that is given and not empty is parsed; `none` is a nil tls.Config.
  ssl_with_cert : Net → Bytes → Value → Reply
  unfolding dialled
  ssl_with_cert net addr (string []) = dialled net (s.tls_dial addr none)
  ssl_with_cert net addr (string (c ∷ cert)) =
      if s.append_certs_from_pem (c ∷ cert)
      then dialled net (s.tls_dial addr (some (c ∷ cert)))
      else fail net 1 (text "Failed to parse TLS certificate")
  ssl_with_cert net addr other =
      fail net 1 (text "Invalid parameter type, expected string for TLS cert")

  -- The parameter of the certificate is read where there are three; `none` is the panic of an index out
  -- of range.
  ssl_connect_to : Net → Bytes → List Value → Option Reply
  unfolding ssl_with_cert
  ssl_connect_to net addr params =
      if length params == 3
      then elim (get_elem? params 2) [
        | none ↦ none
        | some cert ↦ some (ssl_with_cert net addr cert)
      ]
      else some (dialled net (s.tls_dial addr none))

  ssl_port : Net → List Value → Bytes → Option ℕ → Option Reply
  unfolding ssl_connect_to
  ssl_port net params host (some port) =
      ssl_connect_to net (join_host_port host (decimal port)) params
  ssl_port net params host none =
      some (fail net 1 (text "Invalid parameter type, expected uint16 for server port"))

  ssl_address : Net → List Value → Value → Option Reply
  unfolding ssl_port
  ssl_address net params (string host) = elim (get_elem? params 1) [
    | none ↦ none
    | some port ↦ ssl_port net params host (to_uint port)
  ]
  ssl_address net params other =
      some (fail net 1 (text "Invalid parameter type, expected string for server address"))

  unfoldable pub tcp_connect_ssl : Net → List Value → Option Reply
  unfolding ssl_address
  tcp_connect_ssl net params =
      if ltb (length params) 1 || ltb 3 (length params)
      then some (
          fail net 1 (
            text
              "Invalid number of parameters, expected server address, port and optional TLS cert"))
      else elim (get_elem? params 0) [ none ↦ none | some addr ↦ ssl_address net params addr ]
