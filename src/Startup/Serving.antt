-- ===== src/Startup/Serving.antt =====
-- main.go: main and startRouter from the loops that accept connections to the shutdown.
use arduino_router.Prelude.{
  ℕ, zero, suc, Option, none, some, Bool, true, false, Bytes, List, [], ◌∷◌, ◌++◌, ◌||◌, text, not,
  bytes_eq, if◌then◌else◌,
}
use arduino_router.Error.{Error, Result, ok, err}
use arduino_router.Connection.Decode.{RpcPacket}
use arduino_router.Router.{World, Forward, Env, accept, finish, fwd_res, handle_packet}
use arduino_router.Value.{Value}
use arduino_router.Startup.{Config, Os, Listener, start_router}
use arduino_router.Startup.Tables.{Apis, Outside}

-- A listener, whether its loop still accepts, and whether its socket is open.
pub record Door : Type 0 where
  pub listener : Listener
  pub accepting : Bool
  pub is_open : Bool

-- The program while startRouter waits for a signal, and once it has returned.
pub record Running (S : Type 0) : Type 0 where
  pub doors : List Door
  pub world : World S
  pub with_serial : Bool
  pub returned : Bool
  pub logged : List Error

-- What a Close of a listener answers is an argument of the interrupt. The loop of the serial port, which
-- Serial models, gives the router a connection too, and goroutines change the state of the APIs and let a handler that waited answer.
pub data Event (S : Type 0) : Type 0 where
  connects : ℕ → Event S
  accept_fails : ℕ → Event S
  opens_serial : Event S
  sends : ℕ → RpcPacket → Event S
  leaves : ℕ → Event S
  changes : S → Event S
  answers_late : Forward → Value → Value → Event S
  interrupts : (Listener → Option Error) → Event S

abbrev pub opened : List Listener → List Door
opened [] = []
opened (l ∷ ls) = record { listener = l; accepting = true; is_open = true } ∷ opened ls

-- Whether the loop of a listener accepts.
abbrev pub is_accepting : List Door → ℕ → Bool
is_accepting [] i = false
is_accepting (d ∷ ds) zero = d.accepting
is_accepting (d ∷ ds) (suc i) = is_accepting ds i

-- The loop ends by `break`, and the socket stays open.
unfoldable pub break_loop : List Door → ℕ → List Door
break_loop [] i = []
break_loop (d ∷ ds) zero = record d { accepting = false } ∷ ds
break_loop (d ∷ ds) (suc i) = d ∷ break_loop ds i

abbrev pub logged_error : Option Error → List Error
logged_error none = []
logged_error (some e) = e ∷ []

-- The loop of the shutdown: the listeners, and the errors that are logged.
unfoldable pub close_listeners : (Listener → Option Error) → List Door → List Door × List Error
close_listeners answer [] = ([], [])
close_listeners answer (d ∷ ds) =
    let (closed, errors) = close_listeners answer ds in
    (record d { is_open = false } ∷ closed, logged_error (answer d.listener) ++ errors)

module _ {S : Type 0} where
  unfoldable pub shut_down : (Listener → Option Error) → Running S → Running S
  shut_down answer s =
      let (closed, errors) = close_listeners answer s.doors in
      record s { doors = closed; returned = true; logged = s.logged ++ errors }

  abbrev pub only_if : Bool → Running S → Option (Running S)
  only_if true s = some s
  only_if false s = none

  module _ (env : Env) where
    -- `none` is an event that cannot happen.
    unfoldable pub happen : Event S → Running S → Option (Running S)
    unfolding shut_down
    happen (connects i) s = only_if (is_accepting s.doors i) (record s { world = accept s.world })
    happen (accept_fails i) s =
        only_if (is_accepting s.doors i) (record s { doors = break_loop s.doors i })
    happen opens_serial s = only_if s.with_serial (record s { world = accept s.world })
    happen (sends conn packet) s =
        only_if (s.world.live conn) (record s { world = handle_packet env s.world conn packet })
    happen (leaves conn) s = only_if (s.world.live conn) (record s { world = finish s.world conn })
    happen (changes a) s = some (record s { world = record s.world { state = a } })
    happen (answers_late f result e) s = some (record s { world = fwd_res env s.world f result e })
    happen (interrupts answer) s = some (shut_down answer s)

    -- `crashed` is the panic of an internal method in the state of the APIs, which ends the program.
    module _ (crashed : S → Bool) where
      -- Nothing happens in the program once startRouter has returned or a panic has ended it.
      unfoldable pub event : Event S → Running S → Option (Running S)
      unfolding happen
      event e s = if s.returned || crashed s.world.state then none else happen e s

      unfoldable pub run : List (Event S) → Running S → Option (Running S)
      run [] s = some s
      run (e ∷ es) s = elim (event e s) [ none ↦ none | some t ↦ run es t ]

-- What becomes of the command that is run once the router is ready.
pub data Ready : Type 0 where
  unset : Ready
  not_created : Error → Ready
  not_run : Error → Ready
  done : Ready

-- paths.NewProcess and Run, on the words of a command.
pub record Processes : Type 0 where
  pub new_process : List Bytes → Option Error
  pub run_process : List Bytes → Option Error

created : Processes → List Bytes → Option Error → Ready
created ps words (some e) = not_created e
created ps words none = elim (ps.run_process words) [ none ↦ done | some e ↦ not_run e ]

unfoldable pub after_ready : Processes → Bytes → Ready
unfolding created
after_ready ps command =
    if bytes_eq command []
    then unset
    else let words = text "sh" ∷ text "-c" ∷ command ∷ [] in created ps words (ps.new_process words)

unfoldable pub running : {S : Type 0} → Bool → Result (List Listener × World S) → Result (Running S)
running with_serial (err e) = err e
running with_serial (ok (ls, w)) = ok (record {
  doors = opened ls;
  world = w;
  with_serial = with_serial;
  returned = false;
  logged = [];
})

-- startRouter up to the wait for a signal.
unfoldable pub launch :
    {P : Type 0} → Os → (ℕ → Outside P) → Bytes → Config → Apis P → Result (Running (Apis P))
unfolding running
launch os out version cfg s =
    running (not (bytes_eq cfg.serial_port_addr [])) (start_router os out version cfg s)

-- The exit code of main, once startRouter has returned.
unfoldable pub exit_code : {S : Type 0} → Result (Running S) → ℕ
exit_code (err e) = 1
exit_code (ok s) = 0
