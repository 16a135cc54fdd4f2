-- ===== src/Network/Packets.antt =====
-- internal/network-api/network-api.go: the packets that are written and read by parts: udp/beginPacket,
-- udp/write, udp/endPacket, udp/dropPacket and udp/read.
use arduino_router.Prelude.{
  nat_eq, Bool, ℕ, Option, none, some, true, Bytes, List, [], ◌∷◌, ◌++◌, pos, ltb, if◌then◌else◌,
  text, decimal, length, take, drop,
}
use arduino_router.Dict.{lookup, insert, delete}
use arduino_router.Error.{Error, Result, ok, err, error_text}
use arduino_router.Value.{Value, string, bool, int, bytes}
use arduino_router.Conversion.{to_uint}
use arduino_router.Reply.{fail, succeed}
use arduino_router.Network.{Net, Deadline, Reply, join_host_port}
use arduino_router.Network.Stream.{payload}

-- What the package net answers to the calls of one method. A packet is read with the text of the
-- address that it comes from.
pub record UdpSockets : Type 0 where
  pub resolve_udp_addr : Bytes → Result Bytes
  pub listen_udp : Bytes → Result ℕ
  pub write_to : ℕ → Bytes → Option Bytes → Result ℕ
  pub set_read_deadline : ℕ → Deadline → Option Error
  pub read_from : ℕ → ℕ → Result (Bytes × Bytes)
  pub is_deadline_exceeded : Error → Bool
  pub split_host_port : Bytes → Result (Bytes × Bytes)
  pub close : ℕ → Option Error

abbrev pub unknown_udp : Net → ℕ → Reply
unknown_udp net id = fail net 2 (text "UDP connection not found for ID: " ++ decimal id)

abbrev pub wrong_udp_id : Net → Reply
wrong_udp_id net = fail net 1 (text "Invalid parameter type, expected int for UDP connection ID")

abbrev pub wrong_udp_uint_id : Net → Reply
wrong_udp_uint_id net =
    fail net 1 (text "Invalid parameter type, expected uint for UDP connection ID")

begin_resolved : Net → ℕ → Result Bytes → Reply
begin_resolved net id (err e) =
    fail net 3 (text "Failed to resolve target address: " ++ error_text e)
begin_resolved net id (ok addr) =
    succeed
      (record net {
        udp_write_targets = insert id addr net.udp_write_targets;
        udp_write_buffers = insert id [] net.udp_write_buffers;
      })
      (bool true)

write_buffered : Net → ℕ → Bytes → Option Bytes → Reply
write_buffered net id d none = unknown_udp net id
write_buffered net id d (some buffer) =
    succeed (record net { udp_write_buffers = insert id (buffer ++ d) net.udp_write_buffers })
      (int (pos (length d)))

write_payload : Net → ℕ → Option Bytes → Reply
unfolding write_buffered
write_payload net id none =
    fail net 1 (text "Invalid parameter type, expected []byte or string for data to write")
write_payload net id (some d) = write_buffered net id d (lookup id net.udp_write_buffers)

write_packet_id : Net → Option ℕ → Value → Reply
unfolding write_payload
write_packet_id net none d = wrong_udp_id net
write_packet_id net (some id) d = write_payload net id (payload d)

unfoldable pub udp_write : Net → List Value → Reply
unfolding write_packet_id
udp_write net (id ∷ d ∷ []) = write_packet_id net (to_uint id) d
udp_write net params = fail net 1 (text "Invalid number of parameters, expected udpConnId, payload")

-- `delete` before the test of `ok`, which is true there.
drop_id : Net → Option ℕ → Reply
drop_id net none = wrong_udp_uint_id net
drop_id net (some id) =
    succeed (record net { udp_read_buffers = delete id net.udp_read_buffers }) (bool true)

abbrev pub drop_count : Net → Reply
drop_count net =
    fail net 1
      (text "Invalid number of parameters, expected (UDP connection ID[, optional timeout in ms])")

unfoldable pub udp_drop_packet : Net → List Value → Reply
unfolding drop_id
udp_drop_packet net (id ∷ []) = drop_id net (to_uint id)
udp_drop_packet net (id ∷ ms ∷ []) = drop_id net (to_uint id)
udp_drop_packet net params = drop_count net

-- The buffer that is there, or a nil slice.
unfoldable pub read_buffer : Net → ℕ → ℕ → Option Bytes → Reply
read_buffer net id max_bytes none = succeed net (bytes [])
read_buffer net id max_bytes (some buffer) =
    if ltb max_bytes (length buffer)
    then succeed
        (record net { udp_read_buffers = insert id (drop max_bytes buffer) net.udp_read_buffers })
        (bytes (take max_bytes buffer))
    else succeed (record net { udp_read_buffers = delete id net.udp_read_buffers }) (bytes buffer)

read_packet_sized : Net → ℕ → Option ℕ → Reply
unfolding read_buffer
read_packet_sized net id none =
    fail net 1 (text "Invalid parameter type, expected uint for max bytes to read")
read_packet_sized net id (some max_bytes) =
    read_buffer net id max_bytes (lookup id net.udp_read_buffers)

read_packet_id : Net → Option ℕ → Value → Reply
unfolding read_packet_sized
read_packet_id net none max_bytes = wrong_udp_uint_id net
read_packet_id net (some id) max_bytes = read_packet_sized net id (to_uint max_bytes)

-- A third parameter is accepted and not used.
unfoldable pub udp_read : Net → List Value → Reply
unfolding read_packet_id
udp_read net (id ∷ max_bytes ∷ []) = read_packet_id net (to_uint id) max_bytes
udp_read net (id ∷ max_bytes ∷ third ∷ []) = read_packet_id net (to_uint id) max_bytes
udp_read net params =
    fail net 1
      (text "Invalid number of parameters, expected (UDP connection ID, max bytes to read)")

module _ (s : UdpSockets) where
  begin_found : Net → ℕ → Bytes → ℕ → Option ℕ → Reply
  unfolding begin_resolved
  begin_found net id host port none = unknown_udp net id
  begin_found net id host port (some conn) =
      begin_resolved net id (s.resolve_udp_addr (join_host_port host (decimal port)))

  begin_at : Net → ℕ → Value → Option ℕ → Reply
  unfolding begin_found
  begin_at net id (string host) (some port) =
      begin_found net id host port (lookup id net.live_udp_connections)
  begin_at net id (string host) none =
      fail net 1 (text "Invalid parameter type, expected uint16 for server port")
  begin_at net id other port =
      fail net 1 (text "Invalid parameter type, expected string for server address")

  begin_id : Net → Option ℕ → Value → Value → Reply
  unfolding begin_at
  begin_id net none host port = wrong_udp_id net
  begin_id net (some id) host port = begin_at net id host (to_uint port)

  unfoldable pub udp_begin_packet : Net → List Value → Reply
  unfolding begin_id
  udp_begin_packet net (id ∷ host ∷ port ∷ []) = begin_id net (to_uint id) host port
  udp_begin_packet net params =
      fail net 1 (text "Invalid number of parameters, expected udpConnId, dest address, dest port")

  end_written : Net → Result ℕ → Reply
  end_written net (err e) = fail net 4 (text "Failed to write to UDP connection: " ++ error_text e)
  end_written net (ok n) = succeed net (int (pos n))

  -- `buffer` and `target` are what the maps had; no target is a nil address.
  end_taken : Net → ℕ → ℕ → Option Bytes → Option Bytes → Reply
  unfolding end_written
  end_taken net id conn none target = fail net 3 (text "No UDP packet begun for ID: " ++ decimal id)
  end_taken net id conn (some buffer) target = end_written net (s.write_to conn buffer target)

  end_found : Net → ℕ → Option ℕ → Reply
  unfolding end_taken
  end_found net id none = unknown_udp net id
  end_found net id (some conn) =
      end_taken
        (record net {
          udp_write_buffers = delete id net.udp_write_buffers;
          udp_write_targets = delete id net.udp_write_targets;
        })
        id conn (lookup id net.udp_write_buffers) (lookup id net.udp_write_targets)

  end_id : Net → Option ℕ → Reply
  unfolding end_found
  end_id net none = wrong_udp_id net
  end_id net (some id) = end_found net id (lookup id net.live_udp_connections)

  unfoldable pub udp_end_packet : Net → List Value → Reply
  unfolding end_id
  udp_end_packet net (id ∷ []) = end_id net (to_uint id)
  udp_end_packet net params =
      fail net 1 (text "Invalid number of parameters, expected expected udpConnId")
