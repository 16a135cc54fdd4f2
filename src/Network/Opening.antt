-- ===== src/Network/Opening.antt =====
-- internal/network-api/network-api.go: what a new connection's ID is good for.
use arduino_router.Prelude.{
  nat_eq, ℕ, ◌+◌, ◌^◌, ◌<◌, ◌≡◌, refl, false, some, Bytes, [], ◌∷◌, decimal, if◌then◌else◌, ◌==◌,
}
use arduino_router.Dict.{lookup, insert, size, lookup-insert}
use arduino_router.Error.{ok}
use arduino_router.Value.{Value, string, uint}
use arduino_router.Conversion.{to_uint}
use arduino_router.Reply.{succeed}
use arduino_router.Network.{Net, Sockets, join_host_port, taken, add_connection, counted}
use arduino_router.Network.Tcp.{dialled, tcp_connect}
use arduino_router.Network.Ids.{next_id_found}

pub record ConnectionAdded (net net' : Net) (id conn : ℕ) : Type 0 where
  pub was_free : taken net id ≡ false
  pub lookup_new :
      (j : ℕ)
      → lookup j net'.live_connections
        ≡ (if id == j then some conn else lookup j net.live_connections)
  pub same_listeners : net'.live_listeners ≡ net.live_listeners

abbrev with_connection : Net → ℕ → ℕ → Net
with_connection net id conn = record (counted net id) {
  live_connections = insert id conn net.live_connections;
}

with_connection-ConnectionAdded :
    (net : Net) (id conn : ℕ)
    → taken net id ≡ false
    → ConnectionAdded net (with_connection net id conn) id conn
with_connection-ConnectionAdded net id conn free = record {
  was_free = free;
  lookup_new = λ j. lookup-insert id j conn net.live_connections;
  same_listeners = refl;
}

pub add_connection_lem :
    (net : Net) (conn : ℕ)
    → size net.live_connections + size net.live_listeners < 2 ^ 32
    → (id : ℕ) × (net' : Net) × (add_connection net conn ≡ succeed net' (uint id))
      × ConnectionAdded net net' id conn
unfolding add_connection
add_connection_lem net conn room =
    let (id, found, free) = next_id_found net room in
    (
      id,
      with_connection net id conn,
      rw (add_connection, found) refl,
      with_connection-ConnectionAdded net id conn free,
    )

module _ (s : Sockets) where
  -- With a host, a port that is an unsigned integer and a socket that is dialled, while both
  -- tables together have fewer than 2 ^ 32 entries: tcp/connect returns an ID that no connection
  -- and no listener had, under which the dialled socket is found, and changes no other connection
  -- and no listener.
  pub tcp_connect_lem :
      (net : Net) (host : Bytes) (port : Value) (n conn : ℕ)
      → to_uint port ≡ some n
      → s.dial (join_host_port host (decimal n)) ≡ ok conn
      → size net.live_connections + size net.live_listeners < 2 ^ 32
      → (id : ℕ) × (net' : Net) × (tcp_connect s net (string host ∷ port ∷ [])
          ≡ succeed net' (uint id))
        × ConnectionAdded net net' id conn
  unfolding tcp_connect dialled
  tcp_connect_lem net host port n conn is_port dials room =
      let (id, net', replies, added) = add_connection_lem net conn room in
      (id, net', rw (is_port, dials) replies, added)
