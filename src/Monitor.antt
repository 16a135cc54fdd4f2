-- ===== src/Monitor.antt =====
-- internal/monitorapi/monitor-api.go: the TCP clients of the monitor. What they send goes into one pipe,
-- which mon/read reads; what mon/write is given goes to all of them.
mod Pipes
mod Traces
mod Clients
mod Overlap
mod Tests
use arduino_router.Prelude.{
  ℕ, zero, suc, Option, none, some, Bool, true, false, Bytes, List, [], ◌∷◌, ◌++◌, ℤ, pos, negsuc,
  ◌+ℤ◌, neg, length, remove, ltb, if◌then◌else◌, text,
}
use arduino_router.Error.{Error, Result, ok, err, error_text, wrapped}
use arduino_router.Value.{Value, bytes, bool, int}
use arduino_router.Conversion.{to_uint}
use arduino_router.Reply.{Answer, fail, succeed}
use arduino_router.Network.Stream.{payload}

-- nio.Pipe over a buffer of `capacity` bytes, 1024 in Register, of a state `P`. With `none` the Write of a
-- client's loop has written what there was room for, and waits; `resume` is how it goes on. A read of at
-- most so many bytes would wait at an empty pipe.
pub record Pipe (P : Type 0) : Type 0 where
  pub capacity : ℕ
  pub contents : P → Bytes
  pub write : P → ℕ → Bytes → P × Option (Result ℕ)
  pub resume : P → ℕ → P × Option (Result ℕ)
  pub read : P → ℕ → P × Result Bytes

-- `closed` are the connections that were closed, the last one first.
pub record Monitor (P : Type 0) : Type 0 where
  pub sockets : List ℕ
  pub closed : List ℕ
  pub send_pipe : P
  pub bytes_in_send_pipe : ℤ

-- The state that Register makes.
unfoldable pub initial : {P : Type 0} → P → Monitor P
initial p = record { sockets = []; closed = []; send_pipe = p; bytes_in_send_pipe = pos 0 }

-- What Write of a client's connection returns; the first argument says whether the write has a deadline.
abbrev pub Writes : Type 0
Writes = Bool → ℕ → Bytes → Option Error

abbrev pub close_all : List ℕ → List ℕ → List ℕ
close_all [] closed = closed
close_all (c ∷ cs) closed = close_all cs (c ∷ closed)

-- Register, with what net.Listen answers and a new pipe.
unfoldable pub register : {P : Type 0} → Option Error → P → Result (Monitor P)
register (some e) p = err (wrapped (text "failed to start listener: ") e [])
register none p = ok (initial p)

module _ {P : Type 0} where
  unfoldable pub close : Monitor P → ℕ → Monitor P
  close m conn = record m { sockets = remove conn m.sockets; closed = conn ∷ m.closed }

  -- A new connection.
  unfoldable pub accept : Monitor P → ℕ → Monitor P
  accept m conn = record m { sockets = conn ∷ remove conn m.sockets }

  -- The loop of connectionHandler, over what Accept returns: an error ends it.
  unfoldable pub connection_handler : List (Result ℕ) → Monitor P → Monitor P
  connection_handler [] m = m
  connection_handler (ok conn ∷ rest) m = connection_handler rest (accept m conn)
  connection_handler (err e ∷ rest) m = m

  -- mon/connected
  unfoldable pub connected : Monitor P → List Value → Answer (Monitor P)
  connected m [] = succeed m (bool (ltb 0 (length m.sockets)))
  connected m params = fail m 1 (text "Invalid number of parameters, expected no parameters")

  -- A connection whose Write failed is lost.
  unfoldable pub after_write : Monitor P → ℕ → Option Error → Monitor P
  after_write m conn none = m
  after_write m conn (some e) = close m conn

  -- The loop of mon/write over the clients. `limited` is `len(clients) > 1`.
  unfoldable pub write_all : Writes → Bool → Bytes → List ℕ → Monitor P → Monitor P
  write_all w limited d [] m = m
  write_all w limited d (conn ∷ conns) m =
      write_all w limited d conns (after_write m conn (w limited conn d))

  write_data : Writes → Monitor P → Option Bytes → Answer (Monitor P)
  unfolding write_all
  write_data w m none =
      fail m 1 (text "Invalid parameter type, expected []byte or string for data to write")
  write_data w m (some d) =
      succeed (write_all w (ltb 1 (length m.sockets)) d m.sockets m) (int (pos (length d)))

  -- mon/write
  unfoldable pub write : Writes → Monitor P → List Value → Answer (Monitor P)
  unfolding write_data
  write w m (d ∷ []) = write_data w m (payload d)
  write w m params = fail m 1 (text "Invalid number of parameters, expected data to write")

  -- mon/reset
  unfoldable pub reset : Monitor P → List Value → Answer (Monitor P)
  reset m [] =
      succeed (record m { sockets = []; closed = close_all m.sockets m.closed }) (bool true)
  reset m params = fail m 1 (text "Invalid number of parameters, expected no parameters")

module _ {P : Type 0} (pipe : Pipe P) where
  -- The counter changes only when Write returns.
  client_written : Monitor P → ℕ → P × Option (Result ℕ) → Monitor P
  unfolding close
  client_written m conn (p, none) = record m { send_pipe = p }
  client_written m conn (p, some (err e)) = close (record m { send_pipe = p }) conn
  client_written m conn (p, some (ok n)) = record m {
    send_pipe = p;
    bytes_in_send_pipe = m.bytes_in_send_pipe +ℤ pos n;
  }

  -- One round of a connection's loop: what its Read returned.
  unfoldable pub client_round : Monitor P → ℕ → Result Bytes → Monitor P
  unfolding client_written close
  client_round m conn (err e) = close m conn
  client_round m conn (ok d) = client_written m conn (pipe.write m.send_pipe conn d)

  -- A Write that waited goes on.
  unfoldable pub client_resumed : Monitor P → ℕ → Monitor P
  unfolding client_written
  client_resumed m conn = client_written m conn (pipe.resume m.send_pipe conn)

  read_done : Monitor P → P × Result Bytes → Answer (Monitor P)
  read_done m (p, err e) =
      fail (record m { send_pipe = p }) 3 (text "Failed to read from connection: " ++ error_text e)
  read_done m (p, ok d) =
      succeed
        (record m { send_pipe = p; bytes_in_send_pipe = m.bytes_in_send_pipe +ℤ neg (length d) })
        (bytes d)

  read_counted : Monitor P → ℕ → ℤ → Answer (Monitor P)
  unfolding read_done
  read_counted m max_bytes (pos zero) = succeed m (bytes [])
  read_counted m max_bytes (pos (suc n)) = read_done m (pipe.read m.send_pipe max_bytes)
  read_counted m max_bytes (negsuc n) = read_done m (pipe.read m.send_pipe max_bytes)

  read_sized : Monitor P → Option ℕ → Answer (Monitor P)
  unfolding read_counted
  read_sized m none =
      fail m 1 (text "Invalid parameter type, expected positive int for max bytes to read")
  read_sized m (some max_bytes) = read_counted m max_bytes m.bytes_in_send_pipe

  -- mon/read
  unfoldable pub read : Monitor P → List Value → Answer (Monitor P)
  unfolding read_sized
  read m (size ∷ []) = read_sized m (to_uint size)
  read m params = fail m 1 (text "Invalid number of parameters, expected max bytes to read")
