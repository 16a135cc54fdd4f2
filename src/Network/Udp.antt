-- ===== src/Network/Udp.antt =====
-- internal/network-api/network-api.go: udp/connect, udp/awaitPacket and udp/close.
use arduino_router.Prelude.{
  nat_eq, ℕ, ◌*◌, Option, none, some, Bytes, List, [], ◌∷◌, ◌++◌, ℤ, pos, if◌then◌else◌, text,
  decimal, length,
}
use arduino_router.Dict.{lookup, insert, delete}
use arduino_router.Error.{Error, Result, ok, err, error_text}
use arduino_router.Value.{Value, string, int, uint, array, items, nil}
use arduino_router.Conversion.{to_uint, to_int}
use arduino_router.Strings.{atoi}
use arduino_router.Reply.{fail, succeed}
use arduino_router.Network.{Net, Deadline, never, Reply, next_id, counted, join_host_port}
use arduino_router.Network.Stream.{deadline_of}
use arduino_router.Network.Packets.{UdpSockets, unknown_udp, wrong_udp_uint_id}
use arduino_router.Network.Tcp.{closed}

-- Where the search finds no ID, the source's loop goes on for ever, and the tables stay as they are.
unfoldable pub add_udp_connection : Net → ℕ → Reply
add_udp_connection net conn = elim (next_id net) [
  | none ↦ succeed net nil
  | some id ↦
      succeed
        (record (counted net id) { live_udp_connections = insert id conn net.live_udp_connections })
        (uint id)
]

-- Without a timeout the read waits for ever.
abbrev pub await_deadline : List Value → Option Deadline
await_deadline [] = some never
await_deadline (ms ∷ rest) = elim (to_int ms) [ none ↦ none | some n ↦ some (deadline_of n) ]

-- res([]any{n, host, port}, nil), and the packet is kept for udp/read.
abbrev pub received : Net → ℕ → Bytes → Bytes → ℤ → Reply
received net id packet host port =
    succeed (record net { udp_read_buffers = insert id packet net.udp_read_buffers })
      (array (items (int (pos (length packet)) ∷ string host ∷ int port ∷ [])))

abbrev pub wrong_source : Net → Bytes → Reply
wrong_source net message = fail net 4 (text "Failed to parse source address: " ++ message)

-- `message` is that of Atoi's error.
received_from : Bytes → Net → ℕ → Bytes → Bytes → Option ℤ → Reply
received_from message net id packet host (some port) = received net id packet host port
received_from message net id packet host none = wrong_source net message

module _ (s : UdpSockets) (atoi_error : Bytes → Bytes) where
  udp_listening : Net → Result ℕ → Reply
  unfolding add_udp_connection
  udp_listening net (err e) = fail net 2 (text "Failed to connect to server: " ++ error_text e)
  udp_listening net (ok conn) = add_udp_connection net conn

  udp_resolved : Net → Result Bytes → Reply
  unfolding udp_listening
  udp_resolved net (err e) = fail net 2 (text "Failed to resolve UDP address: " ++ error_text e)
  udp_resolved net (ok addr) = udp_listening net (s.listen_udp addr)

  udp_connect_to : Net → Value → Option ℕ → Reply
  unfolding udp_resolved
  udp_connect_to net (string host) (some port) =
      udp_resolved net (s.resolve_udp_addr (join_host_port host (decimal port)))
  udp_connect_to net (string host) none =
      fail net 1 (text "Invalid parameter type, expected uint16 for server port")
  udp_connect_to net other port =
      fail net 1 (text "Invalid parameter type, expected string for server address")

  unfoldable pub udp_connect : Net → List Value → Reply
  unfolding udp_connect_to
  udp_connect net (addr ∷ port ∷ []) = udp_connect_to net addr (to_uint port)
  udp_connect net params =
      fail net 1 (text "Invalid number of parameters, expected server address and port")

  await_split : Net → ℕ → Bytes → Result (Bytes × Bytes) → Reply
  unfolding received_from
  await_split net id packet (err e) = wrong_source net (error_text e)
  await_split net id packet (ok (host, port)) =
      received_from (atoi_error port) net id packet host (atoi port)

  await_read : Net → ℕ → Result (Bytes × Bytes) → Reply
  unfolding await_split
  await_read net id (ok (packet, addr)) = await_split net id packet (s.split_host_port addr)
  await_read net id (err e) =
      if s.is_deadline_exceeded e
      then fail net 5 (text "Timeout")
      else fail net 3 (text "Failed to read from UDP connection: " ++ error_text e)

  -- The buffer of a read has 64 KB.
  await_ready : Net → ℕ → ℕ → Option Error → Reply
  unfolding await_read
  await_ready net id conn (some e) =
      fail net 3 (text "Failed to set read deadline: " ++ error_text e)
  await_ready net id conn none = await_read net id (s.read_from conn (64 * 1024))

  await_found : Net → ℕ → Deadline → Option ℕ → Reply
  unfolding await_ready
  await_found net id deadline none = unknown_udp net id
  await_found net id deadline (some conn) =
      await_ready net id conn (s.set_read_deadline conn deadline)

  await_timed : Net → ℕ → Option Deadline → Reply
  unfolding await_found
  await_timed net id none =
      fail net 1 (text "Invalid parameter type, expected int for timeout in ms")
  await_timed net id (some deadline) =
      await_found net id deadline (lookup id net.live_udp_connections)

  await_id : Net → Option ℕ → List Value → Reply
  unfolding await_timed
  await_id net none timeout = wrong_udp_uint_id net
  await_id net (some id) timeout = await_timed net id (await_deadline timeout)

  unfoldable pub udp_await_packet : Net → List Value → Reply
  unfolding await_id
  udp_await_packet net (id ∷ []) = await_id net (to_uint id) []
  udp_await_packet net (id ∷ ms ∷ []) = await_id net (to_uint id) (ms ∷ [])
  udp_await_packet net params =
      fail net 1 (
        text "Invalid number of parameters, expected (UDP connection ID[, optional timeout in ms])")

  udp_close_found : Net → ℕ → Option ℕ → Reply
  unfolding closed
  udp_close_found net id none = unknown_udp net id
  udp_close_found net id (some conn) = closed net (s.close conn)

  -- The tables are cleared before the test.
  udp_close_id : Net → Option ℕ → Reply
  unfolding udp_close_found
  udp_close_id net none = wrong_udp_uint_id net
  udp_close_id net (some id) =
      udp_close_found
        (record net {
          live_udp_connections = delete id net.live_udp_connections;
          udp_read_buffers = delete id net.udp_read_buffers;
        })
        id (lookup id net.live_udp_connections)

  unfoldable pub udp_close : Net → List Value → Reply
  unfolding udp_close_id
  udp_close net (id ∷ []) = udp_close_id net (to_uint id)
  udp_close net params =
      fail net 1 (text "Invalid number of parameters, expected UDP connection ID")
