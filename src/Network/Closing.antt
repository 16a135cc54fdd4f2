-- ===== src/Network/Closing.antt =====
-- internal/network-api/network-api.go: tcp/close, and the methods on an ID after it; the panic of
-- tcp/connectSSL.
use arduino_router.Prelude.{
  nat_eq, ℕ, ◌+◌, ◌^◌, ◌<◌, ◌≡◌, refl, ◌∙◌, ◌↔◌, false, Option, none, some, Bytes, List, [], ◌∷◌,
  ◌++◌, decimal, text, arith, if◌then◌else◌, ◌==◌, Bool-cases, Option-cases, inl, inr, ==_iff,
}
use arduino_router.Dict.{lookup, delete, size, lookup-delete, lookup-delete_self}
use arduino_router.Error.{Error, error_text, ok}
use arduino_router.Value.{Value, string, uint}
use arduino_router.Conversion.{to_uint}
use arduino_router.Reply.{fail, succeed}
use arduino_router.Network.{Net, Sockets, Reply, join_host_port, taken}
use arduino_router.Network.Tcp.{closed, tcp_connect, tcp_close}
use arduino_router.Network.Stream.{tcp_read, tcp_write}
use arduino_router.Network.Ssl.{tcp_connect_ssl}
use arduino_router.Network.Opening.{tcp_connect_lem}

abbrev pub unknown_connection : Net → ℕ → Reply
unknown_connection net id = fail net 2 (text "Connection not found for ID: " ++ decimal id)

-- No method knows the ID.
pub record IsClosed (s : Sockets) (net : Net) (v : Value) (id : ℕ) : Type 0 where
  pub no_close : tcp_close s net (v ∷ []) ≡ unknown_connection net id
  pub no_write : (d : Value) → tcp_write s net (v ∷ d ∷ []) ≡ unknown_connection net id
  pub no_read : (n : Value) → tcp_read s net (v ∷ n ∷ []) ≡ unknown_connection net id
  pub no_timed_read : (n ms : Value) → tcp_read s net (v ∷ n ∷ ms ∷ []) ≡ unknown_connection net id

abbrev pub close_text : Option Error → Bytes
close_text none = []
close_text (some e) = error_text e

pub closed_lem : (net : Net) (o : Option Error) → closed net o ≡ succeed net (string (close_text o))
unfolding closed
closed_lem net none = refl
closed_lem net (some e) = refl

free_connection :
    (net : Net) (id : ℕ) → taken net id ≡ false → lookup id net.live_connections ≡ none
free_connection net id free = elim (Option-cases (lookup id net.live_connections)) [
  | inl unknown ↦ unknown
  | inr (conn, known) ↦ grind arith
]

closed_again :
    (net : Net) (id conn j : ℕ)
    → lookup id net.live_connections ≡ none
    → (if id == j then none else if id == j then some conn else lookup j net.live_connections)
      ≡ lookup j net.live_connections
closed_again net id conn j free = elim (Bool-cases (id == j)) [
  | inr other ↦ ground arith
  | inl same ↦ let path = (==_iff id j).0 same in grind arith
]

module _ (s : Sockets) where
  unknown-IsClosed :
      (net : Net) (v : Value) (id : ℕ)
      → to_uint v ≡ some id
      → lookup id net.live_connections ≡ none
      → IsClosed s net v id
  unfolding tcp_close tcp_write tcp_read
  unknown-IsClosed net v id is_id unknown = record {
    no_close = rw (is_id, unknown) refl;
    no_write = λ d. rw (is_id, unknown) refl;
    no_read = λ n. rw (is_id, unknown) refl;
    no_timed_read = λ n ms. rw (is_id, unknown) refl;
  }

  -- With the ID of an open connection tcp/close returns the text of the error of closing its
  -- socket, removes that connection, and changes no other and no listener; after it, tcp/close,
  -- tcp/write and tcp/read with that ID all return the error 2 of an unknown connection and
  -- change nothing.
  pub tcp_close_lem :
      (net : Net) (v : Value) (id conn : ℕ)
      → to_uint v ≡ some id
      → lookup id net.live_connections ≡ some conn
      → (net' : Net) × (tcp_close s net (v ∷ [])
          ≡ succeed net' (string (close_text (s.close conn))))
        × IsClosed s net' v id
        × ((j : ℕ)
            → lookup j net'.live_connections
              ≡ (if id == j then none else lookup j net.live_connections))
        × (net'.live_listeners ≡ net.live_listeners)
  unfolding tcp_close closed
  tcp_close_lem net v id conn is_id known =
      let net' = record net { live_connections = delete id net.live_connections } in
      (
        net',
        rw (is_id, known) (closed_lem net' (s.close conn)),
        unknown-IsClosed net' v id is_id (lookup-delete_self id net.live_connections),
        λ j. lookup-delete id j net.live_connections,
        refl,
      )

  -- With a host, a port that is an unsigned integer and a socket that is dialled, while both
  -- tables together have fewer than 2 ^ 32 entries: tcp/connect returns an ID, tcp/close with
  -- that ID closes the dialled socket and returns its error as text, and every connection and
  -- listener is then as before.
  pub connect_close :
      (net : Net) (host : Bytes) (port : Value) (n conn : ℕ)
      → to_uint port ≡ some n
      → s.dial (join_host_port host (decimal n)) ≡ ok conn
      → size net.live_connections + size net.live_listeners < 2 ^ 32
      → (id : ℕ) × (net' net'' : Net) × (tcp_connect s net (string host ∷ port ∷ [])
          ≡ succeed net' (uint id))
        × (tcp_close s net' (uint id ∷ []) ≡ succeed net'' (string (close_text (s.close conn))))
        × ((j : ℕ) → lookup j net''.live_connections ≡ lookup j net.live_connections)
        × (net''.live_listeners ≡ net.live_listeners)
  unfolding to_uint
  connect_close net host port n conn is_port dials room =
      let (id, net', replies, added) = tcp_connect_lem s net host port n conn is_port dials room in
      let known = added.lookup_new id in
      let (net'', closes, gone, rest, listeners) =
        tcp_close_lem net' (uint id) id conn refl (ground arith) in
      (
        id,
        net',
        net'',
        replies,
        closes,
        λ j.
            let now = rest j in
            let was = added.lookup_new j in
            let before = free_connection net id added.was_free in
            now ∙ rw was (closed_again net id conn j before),
        listeners ∙ added.same_listeners,
      )

  ssl_panic-one :
      (net : Net) (params : List Value)
      → tcp_connect_ssl s net params ≡ none
      → (host : Bytes) × (params ≡ string host ∷ [])
  unfolding tcp_connect_ssl
  ssl_panic-one net [] h = ground arith
  ssl_panic-one net (string host ∷ []) h = (host, refl)
  ssl_panic-one net (v ∷ []) h = ground arith
  ssl_panic-one net (a ∷ b ∷ []) h = ground arith
  ssl_panic-one net (a ∷ b ∷ c ∷ []) h = ground arith
  ssl_panic-one net (a ∷ b ∷ c ∷ d ∷ rest) h = ground arith

  one_string_panics : (net : Net) (host : Bytes) → tcp_connect_ssl s net (string host ∷ []) ≡ none
  unfolding tcp_connect_ssl
  one_string_panics net host = refl

  -- Tcp/connectSSL panics exactly when it is called with one parameter and that is a string.
  pub tcp_connect_ssl_panics :
      (net : Net) (params : List Value)
      → (tcp_connect_ssl s net params ≡ none) ↔ ((host : Bytes) × (params ≡ string host ∷ []))
  tcp_connect_ssl_panics net params =
      (ssl_panic-one net params, λ one. rw (one.1) (one_string_panics net one.0))
