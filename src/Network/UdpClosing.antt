-- ===== src/Network/UdpClosing.antt =====
-- internal/network-api/network-api.go: what the UDP methods do after udp/close.
use arduino_router.Prelude.{
  nat_eq, ℕ, ℤ, ◌≡◌, none, some, Bytes, [], ◌∷◌, pos, if◌then◌else◌, ◌==◌, length,
}
use arduino_router.Dict.{lookup, delete, lookup-delete, lookup-delete_self}
use arduino_router.Value.{Value, bytes, string, int}
use arduino_router.Conversion.{to_uint, to_int}
use arduino_router.Reply.{succeed}
use arduino_router.Network.{Net}
use arduino_router.Network.Packets.{
  UdpSockets, unknown_udp, udp_write, udp_begin_packet, udp_end_packet,
}
use arduino_router.Network.Pieces.{unread}
use arduino_router.Network.Stream.{deadline_of}
use arduino_router.Network.Udp.{await_deadline, udp_await_packet, udp_close}
use arduino_router.Network.Closing.{close_text, closed_lem}

-- The tables after udp/close of an ID, which waits, begins and ends no packet any more, has nothing to
-- read, and leaves the other IDs alone. A packet that was begun is still there for udp/write.
pub record IsUdpClosed (s : UdpSockets) (message : Bytes → Bytes) (net net' : Net) (v : Value)
    (id : ℕ) : Type 0 where
  pub no_await : udp_await_packet s message net' (v ∷ []) ≡ unknown_udp net' id
  pub no_await_timed :
      (ms : Value) (n : ℤ)
      → to_int ms ≡ some n
      → udp_await_packet s message net' (v ∷ ms ∷ []) ≡ unknown_udp net' id
  pub no_end : udp_end_packet s net' (v ∷ []) ≡ unknown_udp net' id
  pub no_begin :
      (host : Bytes) (port : Value) (n : ℕ)
      → to_uint port ≡ some n
      → udp_begin_packet s net' (v ∷ string host ∷ port ∷ []) ≡ unknown_udp net' id
  pub nothing_unread : unread net' id ≡ []
  pub still_writes :
      (b d : Bytes)
      → lookup id net.udp_write_buffers ≡ some b
      → (udp_write net' (v ∷ bytes d ∷ [])).1 ≡ int (pos (length d))
  pub others :
      (j : ℕ)
      → lookup j net'.live_udp_connections
        ≡ (if id == j then none else lookup j net.live_udp_connections)

timed : (ms : Value) (n : ℤ) → to_int ms ≡ some n → await_deadline (ms ∷ []) ≡ some (deadline_of n)
timed ms n is_int = rw (is_int, await_deadline)

module _ (s : UdpSockets) (message : Bytes → Bytes) where
  abbrev forgotten : Net → ℕ → Net
  forgotten net id = record net {
    live_udp_connections = delete id net.live_udp_connections;
    udp_read_buffers = delete id net.udp_read_buffers;
  }

  forgotten-IsUdpClosed :
      (net : Net) (v : Value) (id : ℕ)
      → to_uint v ≡ some id
      → IsUdpClosed s message net (forgotten net id) v id
  unfolding udp_await_packet udp_end_packet udp_begin_packet udp_write
  forgotten-IsUdpClosed net v id is_id =
      let unknown = lookup-delete_self id net.live_udp_connections in
      record {
        no_await = rw (is_id, unknown);
        no_await_timed = λ ms n is_int. rw (is_id, timed ms n is_int, unknown);
        no_end = rw (is_id, unknown);
        no_begin = λ host port n is_port. rw (is_id, is_port, unknown);
        nothing_unread = rw (lookup-delete_self id net.udp_read_buffers);
        still_writes = λ b d begun. rw (is_id, begun);
        others = λ j. lookup-delete id j net.live_udp_connections;
      }

  -- With the ID of an open UDP socket udp/close returns the text of the error of closing it, and
  -- after it: the other sockets are as before; udp/awaitPacket, with or without a timeout,
  -- udp/endPacket and udp/beginPacket with that ID return the error 2 of an unknown socket;
  -- nothing is there to read; but a packet that was begun can still be written to.
  pub udp_close_lem :
      (net : Net) (v : Value) (id conn : ℕ)
      → to_uint v ≡ some id
      → lookup id net.live_udp_connections ≡ some conn
      → (net' : Net) × (udp_close s message net (v ∷ [])
          ≡ succeed net' (string (close_text (s.close conn))))
        × IsUdpClosed s message net net' v id
  unfolding udp_close
  udp_close_lem net v id conn is_id known = (
    forgotten net id,
    rw (is_id, known) (closed_lem (forgotten net id) (s.close conn)),
    forgotten-IsUdpClosed net v id is_id,
  )
