-- ===== src/Monitor/Overlap/Starving.antt =====
-- internal/monitorapi/monitor-api.go, read: of two calls that overlap, one may wait for the next bytes.
use arduino_router.Prelude.{
  ℕ, ◌≡◌, ◌≢◌, refl, ap, sym, ==_iff, ◌∙◌, Option, none, some, false, Bytes, List, [], ◌∷◌, ℤ, pos,
  ◌+ℤ◌, neg, length, ◌==◌, arith, Bool-cases, Option-cases, inl, inr,
}
use arduino_router.Error.{ok}
use arduino_router.Monitor.Overlap.{
  Phase, asks, reads, holds, answered, Readers, Move, tests, takes, counts, rounds, becomes, tested,
  taken, read_pipe, test_counter, take_bytes, count_bytes, move, moves,
}
use arduino_router.Monitor.{Pipe}

-- The clients send nothing.
abbrev pub NoRounds : List Move → Type 0
NoRounds [] = Unit {0}
NoRounds (rounds conn r ∷ ms) = ⊥
NoRounds (m ∷ ms) = NoRounds ms

module _ {P : Type 0} (pipe : Pipe P) (j n : ℕ) where
  -- The call reads, and there is nothing to read.
  abbrev Starved : Readers P → Type 0
  Starved s = (s.callers j ≡ reads n) × (pipe.contents s.monitor.send_pipe ≡ [])

  -- A step of a call that does not read keeps this.
  becomes-Starved :
      (s : Readers P) (i : ℕ) (before after : Phase) (c : ℤ)
      → Starved s
      → s.callers i ≡ before
      → before ≢ reads n
      → Starved
          (becomes (record s { monitor = record s.monitor { bytes_in_send_pipe = c } }) i after)
  unfolding becomes
  becomes-Starved s i before after c (reading, empty) at_i differs = elim (Bool-cases (i == j)) [
    | inl same ↦ absurd (differs (sym at_i ∙ (ap s.callers ((==_iff i j).0 same) ∙ reading)))
    | inr other ↦ (rw other reading, empty)
  ]

  test-Starved :
      (phase : Phase) (s t : Readers P) (i : ℕ)
      → Starved s
      → s.callers i ≡ phase
      → test_counter pipe s i phase ≡ some t
      → Starved t
  unfolding test_counter
  test-Starved (asks k) s t i h at_i e =
      let same : becomes s i (tested s.monitor.bytes_in_send_pipe k) ≡ t = cc in
      rw (← same) (
        becomes-Starved s i (asks k) (tested s.monitor.bytes_in_send_pipe k)
          s.monitor.bytes_in_send_pipe h at_i (λ x. cc))
  test-Starved other s t i h at_i e = cc

  count-Starved :
      (phase : Phase) (s t : Readers P) (i : ℕ)
      → Starved s
      → s.callers i ≡ phase
      → count_bytes pipe s i phase ≡ some t
      → Starved t
  unfolding count_bytes
  count-Starved (holds d) s t i h at_i e =
      let c = s.monitor.bytes_in_send_pipe +ℤ neg (length d) in
      let same : becomes (record s { monitor = record s.monitor { bytes_in_send_pipe = c } }) i
            (answered d)
          ≡ t =
        cc in
      rw (← same) (becomes-Starved s i (holds d) (answered d) c h at_i (λ x. cc))
  count-Starved other s t i h at_i e = cc

  -- No call gets anything from an empty pipe.
  take-Starved :
      (phase : Phase) (s t : Readers P) (i : ℕ)
      → Starved s
      → take_bytes pipe s i phase ≡ some t
      → Starved t
  unfolding take_bytes read_pipe
  take-Starved (reads k) s t i (reading, empty) e =
      let stuck : read_pipe pipe s i k [] ≡ some t = rw empty at e in cc
  take-Starved other s t i h e = cc

  first_move :
      (m : Move) (ms : List Move) (s t : Readers P)
      → moves pipe (m ∷ ms) s ≡ some t
      → (u : Readers P) × (move pipe m s ≡ some u) × (moves pipe ms u ≡ some t)
  unfolding moves
  first_move m ms s t e = elim (Option-cases (move pipe m s)) [
    | inl stuck ↦ absurd (ground arith)
    | inr (u, now) ↦ (u, now, ground arith)
  ]

  moves-Starved :
      (ms : List Move) (s t : Readers P)
      → NoRounds ms
      → Starved s
      → moves pipe ms s ≡ some t
      → Starved t
  unfolding move moves
  moves-Starved [] s t none_come h e = let same : s ≡ t = cc in rw (← same) h
  moves-Starved (tests i ∷ ms) s t none_come h e =
      let (u, now, later) = first_move (tests i) ms s t e in
      moves-Starved ms u t none_come (test-Starved (s.callers i) s u i h refl now) later
  moves-Starved (takes i ∷ ms) s t none_come h e =
      let (u, now, later) = first_move (takes i) ms s t e in
      moves-Starved ms u t none_come (take-Starved (s.callers i) s u i h now) later
  moves-Starved (counts i ∷ ms) s t none_come h e =
      let (u, now, later) = first_move (counts i) ms s t e in
      moves-Starved ms u t none_come (count-Starved (s.callers i) s u i h refl now) later
  moves-Starved (rounds conn r ∷ ms) s t none_come h e = absurd none_come

-- If the steps can be made, the call still reads after them.
abbrev pub IsLeft : {P : Type 0} → ℕ → ℕ → Option (Readers P) → Type 0
IsLeft j k none = Unit {0}
IsLeft j k (some t) = t.callers j ≡ reads k

module _ {P : Type 0} (pipe : Pipe P) (i j n k b : ℕ) (rest : Bytes) (s : Readers P) (other : i ≢ j)
    (asks_first : s.callers i ≡ asks n) (asks_second : s.callers j ≡ asks k)
    (filled : pipe.contents s.monitor.send_pipe ≡ b ∷ rest)
    (counted : s.monitor.bytes_in_send_pipe ≡ pos (length (b ∷ rest))) (p : P)
    (taken_all : pipe.read s.monitor.send_pipe n ≡ (p, ok (b ∷ rest)))
    (emptied : pipe.contents p ≡ []) where
  abbrev pub first_wins : List Move
  first_wins = tests i ∷ tests j ∷ takes i ∷ counts i ∷ []

  differ : (i == j) ≡ false
  differ = ground (arith, ==_iff i j)

  both_asked : Readers P
  both_asked = becomes (becomes s i (reads n)) j (reads k)

  one_holds : Readers P
  unfolding both_asked
  one_holds =
      becomes (record both_asked { monitor = record s.monitor { send_pipe = p } }) i
        (holds (b ∷ rest))

  one_answered : Readers P
  unfolding one_holds
  one_answered =
      becomes
        (record one_holds {
          monitor = record s.monitor {
            send_pipe = p;
            bytes_in_send_pipe = s.monitor.bytes_in_send_pipe +ℤ neg (length (b ∷ rest));
          };
        })
        i (answered (b ∷ rest))

  not_zero : (a : ℕ) → tested s.monitor.bytes_in_send_pipe a ≡ reads a
  unfolding tested
  not_zero a = rw counted refl

  first_tests : move pipe (tests i) s ≡ some (becomes s i (reads n))
  unfolding move test_counter
  first_tests = rw (asks_first, not_zero n) refl

  second_tests : move pipe (tests j) (becomes s i (reads n)) ≡ some both_asked
  unfolding move test_counter becomes both_asked
  second_tests = rw (differ, asks_second, not_zero k) refl

  first_reads : both_asked.callers i ≡ reads n
  unfolding becomes both_asked
  first_reads = ground (arith, ==_iff i j)

  first_takes : move pipe (takes i) both_asked ≡ some one_holds
  unfolding move take_bytes read_pipe taken both_asked one_holds
  first_takes = rw (first_reads, filled, taken_all) refl

  first_holds : one_holds.callers i ≡ holds (b ∷ rest)
  unfolding becomes one_holds
  first_holds = ground arith

  first_counts : move pipe (counts i) one_holds ≡ some one_answered
  unfolding move count_bytes one_holds both_asked one_answered becomes
  first_counts = rw first_holds refl

  after_both :
      (moves pipe first_wins s ≡ some one_answered)
      × (one_answered.callers i ≡ answered (b ∷ rest))
      × (one_answered.callers j ≡ reads k)
      × (pipe.contents one_answered.monitor.send_pipe ≡ [])
  unfolding moves one_answered one_holds both_asked becomes
  after_both = (
    rw (first_tests, moves, second_tests, first_takes, first_counts) refl,
    ground arith,
    ground (arith, ==_iff i j, ==_iff j j),
    emptied,
  )

  starved : Starved pipe j k one_answered
  starved = (after_both.2, after_both.3)

  -- Where two calls of mon/read both test the counter, which counts the bytes in the pipe, before
  -- one of them takes all these bytes: that one answers with the bytes, and the other has not
  -- answered after any further steps of calls, as long as the clients send nothing.
  pub overlapped_read_waits :
      (ms : List Move)
      → NoRounds ms
      → (u : Readers P) × (moves pipe first_wins s ≡ some u)
        × (u.callers i ≡ answered (b ∷ rest))
        × IsLeft j k (moves pipe ms u)
  overlapped_read_waits ms none_come =
      (one_answered, after_both.0, after_both.1, left (moves pipe ms one_answered) refl)
    where
      left : (o : Option (Readers P)) → moves pipe ms one_answered ≡ o → IsLeft j k o
      left none e = tt
      left (some t) e = (moves-Starved pipe j k ms one_answered t none_come starved e).0
