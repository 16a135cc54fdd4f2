-- ===== src/Network/Tcp.antt =====
-- internal/network-api/network-api.go: tcp/connect, tcp/listen, tcp/accept, tcp/close and
-- tcp/closeListener.
use arduino_router.Prelude.{nat_eq, ℕ, Option, none, some, List, [], ◌∷◌, ◌++◌, text, decimal}
use arduino_router.Dict.{lookup, delete}
use arduino_router.Error.{Error, Result, ok, err, error_text}
use arduino_router.Value.{Value, string}
use arduino_router.Conversion.{to_uint}
use arduino_router.Reply.{fail, succeed}
use arduino_router.Network.{Net, Sockets, Reply, join_host_port, add_connection, add_listener}

unfoldable pub dialled : Net → Result ℕ → Reply
unfolding add_connection
dialled net (err e) = fail net 2 (text "Failed to connect to server: " ++ error_text e)
dialled net (ok conn) = add_connection net conn

-- The error of Close is the result.
unfoldable pub closed : Net → Option Error → Reply
closed net none = succeed net (string [])
closed net (some e) = succeed net (string (error_text e))

module _ (s : Sockets) where
  connect_to : Net → Value → Option ℕ → Reply
  unfolding dialled join_host_port
  connect_to net (string host) (some port) =
      dialled net (s.dial (join_host_port host (decimal port)))
  connect_to net (string host) none =
      fail net 1 (text "Invalid parameter type, expected uint16 for server port")
  connect_to net other port =
      fail net 1 (text "Invalid parameter type, expected string for server address")

  unfoldable pub tcp_connect : Net → List Value → Reply
  unfolding connect_to
  tcp_connect net (addr ∷ port ∷ []) = connect_to net addr (to_uint port)
  tcp_connect net params =
      fail net 1 (text "Invalid number of parameters, expected server address and port")

  listening : Net → Result ℕ → Reply
  unfolding add_listener
  listening net (err e) = fail net 2 (text "Failed to start listening on address: " ++ error_text e)
  listening net (ok listener) = add_listener net listener

  listen_on : Net → Value → Option ℕ → Reply
  unfolding listening
  listen_on net (string host) (some port) =
      listening net (s.listen (join_host_port host (decimal port)))
  listen_on net (string host) none =
      fail net 1 (text "Invalid parameter type, expected uint16 for listen port")
  listen_on net other port =
      fail net 1 (text "Invalid parameter type, expected string for listen address")

  unfoldable pub tcp_listen : Net → List Value → Reply
  unfolding listen_on
  tcp_listen net (addr ∷ port ∷ []) = listen_on net addr (to_uint port)
  tcp_listen net params =
      fail net 1 (text "Invalid number of parameters, expected listen address and port")

  accepted : Net → Result ℕ → Reply
  unfolding add_connection
  accepted net (err e) = fail net 3 (text "Failed to accept connection: " ++ error_text e)
  accepted net (ok conn) = add_connection net conn

  accept_on : Net → ℕ → Option ℕ → Reply
  unfolding accepted
  accept_on net id none = fail net 2 (text "Listener not found for ID: " ++ decimal id)
  accept_on net id (some listener) = accepted net (s.accept listener)

  accept_id : Net → Option ℕ → Reply
  unfolding accept_on
  accept_id net none = fail net 1 (text "Invalid parameter type, expected int for listener ID")
  accept_id net (some id) = accept_on net id (lookup id net.live_listeners)

  unfoldable pub tcp_accept : Net → List Value → Reply
  unfolding accept_id
  tcp_accept net (id ∷ []) = accept_id net (to_uint id)
  tcp_accept net params = fail net 1 (text "Invalid number of parameters, expected listener ID")

  close_found : Net → ℕ → Option ℕ → Reply
  unfolding closed
  close_found net id none = fail net 2 (text "Connection not found for ID: " ++ decimal id)
  close_found net id (some conn) =
      closed (record net { live_connections = delete id net.live_connections }) (s.close conn)

  close_id : Net → Option ℕ → Reply
  unfolding close_found
  close_id net none = fail net 1 (text "Invalid parameter type, expected int for connection ID")
  close_id net (some id) = close_found net id (lookup id net.live_connections)

  unfoldable pub tcp_close : Net → List Value → Reply
  unfolding close_id
  tcp_close net (id ∷ []) = close_id net (to_uint id)
  tcp_close net params = fail net 1 (text "Invalid number of parameters, expected connection ID")

  close_listener_found : Net → ℕ → Option ℕ → Reply
  unfolding closed
  close_listener_found net id none = fail net 2 (text "Listener not found for ID: " ++ decimal id)
  close_listener_found net id (some listener) =
      closed (record net { live_listeners = delete id net.live_listeners })
        (s.close_listener listener)

  close_listener_id : Net → Option ℕ → Reply
  unfolding close_listener_found
  close_listener_id net none =
      fail net 1 (text "Invalid parameter type, expected int for listener ID")
  close_listener_id net (some id) = close_listener_found net id (lookup id net.live_listeners)

  unfoldable pub tcp_close_listener : Net → List Value → Reply
  unfolding close_listener_id
  tcp_close_listener net (id ∷ []) = close_listener_id net (to_uint id)
  tcp_close_listener net params =
      fail net 1 (text "Invalid number of parameters, expected listener ID")
