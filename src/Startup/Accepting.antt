-- ===== src/Startup/Accepting.antt =====
-- main.go, startRouter: what the loops that accept connections do until the shutdown.
use arduino_router.Prelude.{
  ℕ, zero, suc, ◌≡◌, ◌≢◌, refl, ap, ◌∙◌, Option, some, Bool, true, false, List, [], ◌∷◌, arith,
  Option-cases, inl, inr,
}
use arduino_router.Error.{Error}
use arduino_router.Router.{Env, fwd_res}
use arduino_router.Startup.Serving.{
  Door, Running, Event, connects, accept_fails, opens_serial, sends, leaves, changes, answers_late,
  interrupts, is_accepting, break_loop, close_listeners, only_if, shut_down, happen, event, run,
}
use arduino_router.Startup.{Listener}

-- No connection comes from this listener.
abbrev pub IsNotFrom : {S : Type 0} → ℕ → Event S → Type 0
IsNotFrom i (connects j) = j ≢ i
IsNotFrom i other = Unit {0}

abbrev pub NoneFrom : {S : Type 0} → ℕ → List (Event S) → Type 0
NoneFrom i [] = Unit {0}
NoneFrom i (e ∷ es) = IsNotFrom i e × NoneFrom i es

-- Whether the socket of a listener is open.
abbrev pub is_open_at : List Door → ℕ → Bool
is_open_at [] i = false
is_open_at (d ∷ ds) zero = d.is_open
is_open_at (d ∷ ds) (suc i) = is_open_at ds i

break_loop_lem : (ds : List Door) (i : ℕ) → is_accepting (break_loop ds i) i ≡ false
unfolding break_loop
break_loop_lem [] i = refl
break_loop_lem (d ∷ ds) zero = refl
break_loop_lem (d ∷ ds) (suc i) = break_loop_lem ds i

break_loop-keeps :
    (ds : List Door) (i j : ℕ)
    → is_accepting ds j ≡ false
    → is_accepting (break_loop ds i) j ≡ false
unfolding break_loop
break_loop-keeps [] i j h = refl
break_loop-keeps (d ∷ ds) zero zero h = refl
break_loop-keeps (d ∷ ds) zero (suc j) h = h
break_loop-keeps (d ∷ ds) (suc i) zero h = h
break_loop-keeps (d ∷ ds) (suc i) (suc j) h = break_loop-keeps ds i j h

break_loop-is_open : (ds : List Door) (i j : ℕ) → is_open_at (break_loop ds i) j ≡ is_open_at ds j
unfolding break_loop
break_loop-is_open [] i j = refl
break_loop-is_open (d ∷ ds) zero zero = refl
break_loop-is_open (d ∷ ds) zero (suc j) = refl
break_loop-is_open (d ∷ ds) (suc i) zero = refl
break_loop-is_open (d ∷ ds) (suc i) (suc j) = break_loop-is_open ds i j

close_listeners-keeps :
    (answer : Listener → Option Error) (ds : List Door) (j : ℕ)
    → is_accepting (close_listeners answer ds).0 j ≡ is_accepting ds j
unfolding close_listeners
close_listeners-keeps answer [] j = refl
close_listeners-keeps answer (d ∷ ds) zero = refl
close_listeners-keeps answer (d ∷ ds) (suc j) = close_listeners-keeps answer ds j

module _ {S : Type 0} where
  pub only_if_lem : (b : Bool) (s t : Running S) → only_if b s ≡ some t → (b ≡ true) × (s ≡ t)
  only_if_lem true s t h = (refl, cc)
  only_if_lem false s t h = cc

  event_happens :
      (env : Env) (crashed : S → Bool) (e : Event S) (s t : Running S)
      → event env crashed e s ≡ some t
      → (s.returned ≡ false) × (happen env e s ≡ some t)
  unfolding event
  event_happens env crashed e s t h = (ground arith, ground arith)

  pub run_first :
      (env : Env) (crashed : S → Bool) (e : Event S) (es : List (Event S)) (s u : Running S)
      → run env crashed (e ∷ es) s ≡ some u
      → (t : Running S) × (happen env e s ≡ some t) × (run env crashed es t ≡ some u)
  unfolding run
  run_first env crashed e es s u h = elim (Option-cases (event env crashed e s)) [
    | inl stopped ↦ absurd (ground arith)
    | inr (t, now) ↦ (t, (event_happens env crashed e s t now).1, ground arith)
  ]

  module _ (env : Env) (crashed : S → Bool) (i : ℕ) where
    happen-stays :
        (e : Event S) (s t : Running S)
        → is_accepting s.doors i ≡ false
        → happen env e s ≡ some t
        → IsNotFrom i e × (is_accepting t.doors i ≡ false)
    unfolding happen shut_down
    happen-stays (connects j) s t h r =
        let (accepting, same) = only_if_lem (is_accepting s.doors j) _ t r in
        (
          λ e.
              let at_i : is_accepting s.doors j ≡ is_accepting s.doors i =
                ap (is_accepting s.doors) e in
              cc,
          rw (← same) h,
        )
    happen-stays (accept_fails j) s t h r =
        let (accepting, same) = only_if_lem (is_accepting s.doors j) _ t r in
        (tt, rw (← same) (break_loop-keeps s.doors j i h))
    happen-stays opens_serial s t h r = (tt, rw (← (only_if_lem s.with_serial _ t r).1) h)
    happen-stays (sends conn packet) s t h r =
        (tt, rw (← (only_if_lem (s.world.live conn) _ t r).1) h)
    happen-stays (leaves conn) s t h r = (tt, rw (← (only_if_lem (s.world.live conn) _ t r).1) h)
    happen-stays (changes a) s t h r =
        let same : record s { world = record s.world { state = a } } ≡ t = cc in (tt, rw (← same) h)
    happen-stays (answers_late f result e) s t h r =
        let same : record s { world = fwd_res env s.world f result e } ≡ t = cc in
        (tt, rw (← same) h)
    happen-stays (interrupts answer) s t h r =
        let same : shut_down answer s ≡ t = cc in
        (tt, rw (← same) (close_listeners-keeps answer s.doors i ∙ h))

    run_stays :
        (es : List (Event S)) (s u : Running S)
        → is_accepting s.doors i ≡ false
        → run env crashed es s ≡ some u
        → NoneFrom i es × (is_accepting u.doors i ≡ false)
    unfolding run
    run_stays [] s u h r = (tt, let same : s ≡ u = cc in rw (← same) h)
    run_stays (e ∷ es) s u h r =
        let (t, now, later) = run_first env crashed e es s u r in
        let (first, still) = happen-stays e s t h now in
        let (others, at_end) = run_stays es t u still later in ((first, others), at_end)

    -- Once Accept of a listener has failed, no sockets are closed by that, and whatever happens
    -- later in the program, no connection comes from that listener any more.
    pub failed_accept_is_final :
        (es : List (Event S)) (s t u : Running S)
        → event env crashed (accept_fails i) s ≡ some t
        → run env crashed es t ≡ some u
        → NoneFrom i es
          × (is_accepting u.doors i ≡ false)
          × ((j : ℕ) → is_open_at t.doors j ≡ is_open_at s.doors j)
    unfolding happen
    failed_accept_is_final es s t u failed r =
        let (accepting, same) =
          only_if_lem (is_accepting s.doors i) _ t
            (event_happens env crashed (accept_fails i) s t failed).1 in
        let (none_more, at_end) = run_stays es t u (rw (← same) (break_loop_lem s.doors i)) r in
        (none_more, at_end, λ j. rw (← same) (break_loop-is_open s.doors i j))
