-- ===== src/Monitor/Tests.antt =====
-- Runs of the monitor's methods and the theorems at a concrete pipe.
use arduino_router.Prelude.{
  ℕ, ◌+◌, leb, le→leb, Option, ◌≤◌, ◌≡◌, refl, sym, none, some, Bytes, [], ◌∷◌, ◌++◌, length,
  length-take, take, drop, take-append-drop, text, pos, arith, if◌then◌else◌, ◌==◌, List,
}
use arduino_router.Error.{ok, err, end_of_file}
use arduino_router.Value.{bytes, uint}
use arduino_router.Conversion.{to_uint}
use arduino_router.Reply.{succeed}
use arduino_router.Monitor.{Pipe, Monitor, accept, client_round, initial, Writes, read}
use arduino_router.Monitor.Pipes.{IsPipe, Counts, read_lem}
use arduino_router.Monitor.Overlap.{Readers, asks, answered, tests, takes, counts, moves, move}
use arduino_router.Monitor.Overlap.Starving.{IsLeft, overlapped_read_waits}
use arduino_router.Monitor.Traces.{Event, accepts, rounds, reads, writes, AllFit, sent, run, fifo}

-- A pipe of 1024 bytes that is its contents. Here a Write that does not fit waits without writing.
abbrev plain : Pipe Bytes
plain = record {
  capacity = 1024;
  contents = λ p. p;
  write = λ p conn d.
      if leb (length p + length d) 1024 then (p ++ d, some (ok (length d))) else (p, none);
  resume = λ p conn. (p, none);
  read = λ p n. (drop n p, ok (take n p));
}

plain-IsPipe : IsPipe plain
plain-IsPipe = record {
  writes = λ p conn d room. (p ++ d, rw (le→leb (length p + length d) 1024 room), refl);
  reads = λ p n some_left.
      (drop n p, take n p, refl, sym (take-append-drop n p), omega (arith, length-take n p));
}

two : to_uint (uint 2) ≡ some 2
unfolding to_uint
two = refl

-- Two clients, and three bytes to read.
abbrev busy : Monitor Bytes
busy = record {
  sockets = 5 ∷ 4 ∷ [];
  closed = [];
  send_pipe = text "abc";
  bytes_in_send_pipe = pos 3;
}

read_lem_example :
    (m' : Monitor Bytes) × (d : Bytes) × (read plain busy (uint 2 ∷ []) ≡ succeed m' (bytes d))
    × (text "abc" ≡ d ++ m'.send_pipe)
    × (length d ≤ 2)
    × Counts plain m'
    × (m'.sockets ≡ busy.sockets)
read_lem_example = read_lem plain busy (uint 2) 2 plain-IsPipe refl two

-- Client 4 is lost.
abbrev one_lost : Writes
one_lost limited conn d = if conn == 4 then some end_of_file else none

abbrev events : List Event
events =
    accepts 4
    ∷ rounds 4 (ok (text "abc"))
    ∷ reads (uint 2 ∷ [])
    ∷ rounds 4 (ok (text "d"))
    ∷ reads (uint 2 ∷ [])
    ∷ writes one_lost (bytes (text "x") ∷ [])
    ∷ rounds 4 (err end_of_file)
    ∷ []

all_fit : AllFit plain events (initial [])
unfolding initial accept client_round read to_uint
all_fit = (tt, (omega arith, (tt, (omega arith, (tt, (tt, (tt, tt)))))))

fifo_example :
    Counts plain (run plain events (initial [])).0
    × ((run plain events (initial [])).1 ++ (run plain events (initial [])).0.send_pipe
        ≡ sent events)
fifo_example = fifo plain events [] plain-IsPipe refl all_fit

-- Two calls of mon/read at once.
abbrev two_calls : Readers Bytes
two_calls = record { monitor = busy; callers = λ c. if c == 0 then asks 10 else asks 5 }

overlapped_read_waits_example :
    (u : Readers Bytes) × (moves plain (tests 0 ∷ tests 1 ∷ takes 0 ∷ counts 0 ∷ []) two_calls
      ≡ some u)
    × (u.callers 0 ≡ answered (text "abc"))
    × IsLeft 1 5 (moves plain (tests 2 ∷ []) u)
overlapped_read_waits_example =
    overlapped_read_waits plain 0 1 10 5 b'a' (text "bc") two_calls (omega arith) refl refl refl
      refl [] refl refl (tests 2 ∷ []) tt

abbrev IsAnswered : ℕ → Option (Readers Bytes) → Type 0
IsAnswered c none = ⊥
IsAnswered c (some u) = u.callers c ≡ answered []

-- One after the other, the second call gets no bytes at once.
second_at_once : IsAnswered 1 (moves plain (tests 0 ∷ takes 0 ∷ counts 0 ∷ tests 1 ∷ []) two_calls)
unfolding moves move
second_at_once = refl
