-- ===== src/Monitor/Overlap.antt =====
-- internal/monitorapi/monitor-api.go, read: calls of mon/read that overlap. The test of the counter, the
-- read of the pipe and the update of the counter are steps of their own; a read of an empty pipe waits.
pub mod Starving
use arduino_router.Prelude.{
  ℕ, zero, suc, ◌≡◌, ◌≢◌, refl, ap, sym, ==_iff, ◌∙◌, Option, none, some, Bool, true, false, Bytes,
  List, [], ◌∷◌, ◌++◌, ℤ, pos, negsuc, ◌+ℤ◌, neg, length, ◌==◌, if◌then◌else◌, arith, text,
  Bool-cases, Option-cases, inl, inr,
}
use arduino_router.Error.{Error, Result, ok, err, error_text}
use arduino_router.Value.{Value, nil, int, string, bytes, array, items}
use arduino_router.Monitor.{Pipe, Monitor, client_round}

-- Where a call is: before the test, before or in the read, before the update of the counter, or
-- answered. The argument of the first two is the number of bytes that it asks for.
pub data Phase : Type 0 where
  idle : Phase
  asks : ℕ → Phase
  reads : ℕ → Phase
  holds : Bytes → Phase
  answered : Bytes → Phase
  errs : Error → Phase

pub record Readers (P : Type 0) : Type 0 where
  pub monitor : Monitor P
  pub callers : ℕ → Phase

pub data Move : Type 0 where
  tests takes counts : ℕ → Move
  rounds : ℕ → Result Bytes → Move

-- if bytesInSendPipe.Load() == 0
pub tested : ℤ → ℕ → Phase
tested (pos zero) n = answered []
tested other n = reads n

module _ {P : Type 0} where
  pub becomes : Readers P → ℕ → Phase → Readers P
  becomes s i phase = record s { callers = λ j. if i == j then phase else s.callers j }

  -- What Read of the pipe returned.
  pub taken : Readers P → ℕ → P × Result Bytes → Readers P
  unfolding becomes
  taken s i (p, ok d) =
      becomes (record s { monitor = record s.monitor { send_pipe = p } }) i (holds d)
  taken s i (p, err e) =
      becomes (record s { monitor = record s.monitor { send_pipe = p } }) i (errs e)

  module _ (pipe : Pipe P) where
    -- At an empty pipe a read does not return.
    pub read_pipe : Readers P → ℕ → ℕ → Bytes → Option (Readers P)
    unfolding taken
    read_pipe s i n [] = none
    read_pipe s i n (b ∷ rest) = some (taken s i (pipe.read s.monitor.send_pipe n))

    pub test_counter : Readers P → ℕ → Phase → Option (Readers P)
    unfolding becomes tested
    test_counter s i (asks n) = some (becomes s i (tested s.monitor.bytes_in_send_pipe n))
    test_counter s i other = none

    pub take_bytes : Readers P → ℕ → Phase → Option (Readers P)
    unfolding read_pipe
    take_bytes s i (reads n) = read_pipe s i n (pipe.contents s.monitor.send_pipe)
    take_bytes s i other = none

    pub count_bytes : Readers P → ℕ → Phase → Option (Readers P)
    unfolding becomes
    count_bytes s i (holds d) = some (
        becomes
          (record s {
            monitor = record s.monitor {
              bytes_in_send_pipe = s.monitor.bytes_in_send_pipe +ℤ neg (length d);
            };
          })
          i (answered d))
    count_bytes s i other = none

    -- A step of one call, or a round of a client's loop; `none` is a step that cannot be made.
    unfoldable pub move : Move → Readers P → Option (Readers P)
    unfolding test_counter take_bytes count_bytes
    move (tests i) s = test_counter s i (s.callers i)
    move (takes i) s = take_bytes s i (s.callers i)
    move (counts i) s = count_bytes s i (s.callers i)
    move (rounds conn r) s = some (record s { monitor = client_round pipe s.monitor conn r })

    unfoldable pub moves : List Move → Readers P → Option (Readers P)
    moves [] s = some s
    moves (m ∷ ms) s = elim (move m s) [ none ↦ none | some t ↦ moves ms t ]
