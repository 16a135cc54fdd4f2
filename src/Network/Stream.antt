-- ===== src/Network/Stream.antt =====
-- internal/network-api/network-api.go: tcp/read and tcp/write. A timeout counts in milliseconds, and
-- neither its overflow as a time.Duration nor the size of the memory is modelled.
use arduino_router.Prelude.{
  nat_eq, ℕ, zero, suc, Option, none, some, Bytes, List, [], ◌∷◌, ◌++◌, ℤ, pos, negsuc,
  if◌then◌else◌, text, decimal,
}
use arduino_router.Dict.{lookup}
use arduino_router.Error.{Error, Result, ok, err, error_text}
use arduino_router.Value.{Value, int, string, bytes}
use arduino_router.Conversion.{to_int, to_uint}
use arduino_router.Reply.{fail, succeed}
use arduino_router.Network.{Net, Deadline, never, after, Sockets, Reply}

abbrev pub deadline_of : ℤ → Deadline
deadline_of (pos zero) = never
deadline_of (pos (suc ms)) = after (suc ms)
deadline_of (negsuc ms) = never

-- Without a timeout it is 1 ms.
abbrev pub read_deadline : List Value → Option Deadline
read_deadline [] = some (after 1)
read_deadline (ms ∷ rest) = elim (to_int ms) [ none ↦ none | some n ↦ some (deadline_of n) ]

-- `[]byte` or string
abbrev pub payload : Value → Option Bytes
payload (bytes b) = some b
payload (string b) = some b
payload other = none

module _ (s : Sockets) where
  -- A read that ends by its deadline returns what it has.
  read_result : Net → Bytes × Option Error → Reply
  read_result net (got, none) = succeed net (bytes got)
  read_result net (got, some e) =
      if s.is_deadline_exceeded e
      then succeed net (bytes got)
      else fail net 3 (text "Failed to read from connection: " ++ error_text e)

  read_after : Net → ℕ → ℕ → Option Error → Reply
  unfolding read_result
  read_after net conn max_bytes (some e) =
      fail net 3 (text "Failed to set read timeout: " ++ error_text e)
  read_after net conn max_bytes none = read_result net (s.read conn max_bytes)

  read_timed : Net → ℕ → ℕ → Option Deadline → Reply
  unfolding read_after
  read_timed net conn max_bytes none =
      fail net 1 (text "Invalid parameter type, expected int for timeout in ms")
  read_timed net conn max_bytes (some deadline) =
      read_after net conn max_bytes (s.set_read_deadline conn deadline)

  read_sized : Net → ℕ → Option ℕ → Option Deadline → Reply
  unfolding read_timed
  read_sized net conn none deadline =
      fail net 1 (text "Invalid parameter type, expected int for max bytes to read")
  read_sized net conn (some max_bytes) deadline = read_timed net conn max_bytes deadline

  read_found : Net → ℕ → Option ℕ → Option ℕ → Option Deadline → Reply
  unfolding read_sized
  read_found net id none max_bytes deadline =
      fail net 2 (text "Connection not found for ID: " ++ decimal id)
  read_found net id (some conn) max_bytes deadline = read_sized net conn max_bytes deadline

  read_id : Net → Option ℕ → Value → List Value → Reply
  unfolding read_found
  read_id net none max_bytes timeout =
      fail net 1 (text "Invalid parameter type, expected int for connection ID")
  read_id net (some id) max_bytes timeout =
      read_found net id (lookup id net.live_connections) (to_uint max_bytes) (read_deadline timeout)

  unfoldable pub tcp_read : Net → List Value → Reply
  unfolding read_id
  tcp_read net (id ∷ max_bytes ∷ []) = read_id net (to_uint id) max_bytes []
  tcp_read net (id ∷ max_bytes ∷ ms ∷ []) = read_id net (to_uint id) max_bytes (ms ∷ [])
  tcp_read net params = fail net 1 (
      text
        "Invalid number of parameters, expected (connection ID, max bytes to read[, optional timeout in ms])")

  written : Net → Result ℕ → Reply
  written net (err e) = fail net 3 (text "Failed to write to connection: " ++ error_text e)
  written net (ok n) = succeed net (int (pos n))

  write_data : Net → ℕ → Option Bytes → Reply
  unfolding written
  write_data net conn none =
      fail net 1 (text "Invalid parameter type, expected []byte or string for data to write")
  write_data net conn (some d) = written net (s.write conn d)

  write_found : Net → ℕ → Option ℕ → Value → Reply
  unfolding write_data
  write_found net id none d = fail net 2 (text "Connection not found for ID: " ++ decimal id)
  write_found net id (some conn) d = write_data net conn (payload d)

  write_id : Net → Option ℕ → Value → Reply
  unfolding write_found
  write_id net none d = fail net 1 (text "Invalid parameter type, expected int for connection ID")
  write_id net (some id) d = write_found net id (lookup id net.live_connections) d

  unfoldable pub tcp_write : Net → List Value → Reply
  unfolding write_id
  tcp_write net (id ∷ d ∷ []) = write_id net (to_uint id) d
  tcp_write net params =
      fail net 1 (text "Invalid number of parameters, expected (connection ID, data to write)")
