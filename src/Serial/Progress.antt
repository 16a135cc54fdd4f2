-- ===== src/Serial/Progress.antt =====
-- main.go, startRouter: when the loop answers the calls of $/serial/close.
use arduino_router.Prelude.{
  ℕ, ◌+◌, ◌≤◌, ◌≡◌, ◌⊎◌, refl, ◌∙◌, Option, none, some, false, Bytes, [], ◌∷◌, bytes_eq_refl,
}
use arduino_router.Value.{Value, string}
use arduino_router.Serial.{
  Serial, Place, checking, asleep, opening, searching, serving, draining, closing, open_port,
  serial_open, state_of, close_port, serial_close, check_signal, check, Turn, checks, opens, fails,
  found, exits, told, drained, Loop, goes_on, Turns, still, turn,
}

-- How many turns the loop is away from its sleep, at most.
abbrev pub rank : Place → ℕ
rank asleep = 0
rank checking = 1
rank searching = 2
rank draining = 2
rank (serving ch) = 3
rank (opening ch) = 4

check_signal-close_signal :
    (s : Serial) (o : Option ℕ) → (check_signal s o).close_signal ≡ s.close_signal
unfolding check_signal
check_signal-close_signal s none = refl
check_signal-close_signal s (some ch) = refl

Turn-close_signal : {s t : Serial} → Turn s t → t.close_signal ≡ s.close_signal
unfolding check
Turn-close_signal (checks s e) = check_signal-close_signal s s.close_signal
Turn-close_signal (opens s ch e) = refl
Turn-close_signal (fails s ch e) = refl
Turn-close_signal (exits s ch e) = refl
Turn-close_signal (told s ch e c) = refl
Turn-close_signal (drained s e) = refl

Loop-close_signal : {s t : Serial} → Loop s t → t.close_signal ≡ s.close_signal
Loop-close_signal (goes_on st) = Turn-close_signal st
Loop-close_signal (found s e) = refl

Turns-close_signal : {s t : Serial} → Turns s t → t.close_signal ≡ s.close_signal
Turns-close_signal still = refl
Turns-close_signal (turn r st) = Loop-close_signal st ∙ Turns-close_signal r

-- The loop sleeps and has answered all, or it waits for the port, or it has a turn.
abbrev pub Moves : Serial → Type 0
Moves s =
    ((s.place ≡ asleep) × (s.waiting ≡ 0)) ⊎ ((s.place ≡ searching) ⊎ ((t : Serial) × Turn s t))

-- The wait for the port is over, or it goes on, with no fewer calls waiting.
abbrev pub Holds : Serial → Serial → Type 0
Holds s t = (t.place ≡ checking) ⊎ ((t.place ≡ searching) × (s.waiting ≤ t.waiting))

-- While there is a channel the loop leaves the waiting calls alone.
Turn-waiting : {s t : Serial} (ch : ℕ) → Turn s t → s.close_signal ≡ some ch → t.waiting ≡ s.waiting
unfolding check check_signal
Turn-waiting ch (checks s e) set = rw set
Turn-waiting ch (opens s j e) set = refl
Turn-waiting ch (fails s j e) set = refl
Turn-waiting ch (exits s j e) set = refl
Turn-waiting ch (told s j e c) set = refl
Turn-waiting ch (drained s e) set = refl

Loop-waiting : {s t : Serial} (ch : ℕ) → Loop s t → s.close_signal ≡ some ch → t.waiting ≡ s.waiting
Loop-waiting ch (goes_on st) set = Turn-waiting ch st set
Loop-waiting ch (found s e) set = refl

Turns-waiting :
    {s t : Serial} (ch : ℕ) → Turns s t → s.close_signal ≡ some ch → t.waiting ≡ s.waiting
Turns-waiting ch still set = refl
Turns-waiting ch (turn r st) set =
    Loop-waiting ch st (Turns-close_signal r ∙ set) ∙ Turns-waiting ch r set

-- $/serial/close, and $/serial/open before the loop has looked.
abbrev pub closed_and_opened : Bytes → Serial → Serial
closed_and_opened address s =
    (serial_open address (state_of (serial_close address s (string address ∷ [])))
      (string address ∷ [])).0

abbrev with_closing : Serial → ℕ → Serial
with_closing s ch = record s {
  close_signal = none;
  closed = closing s.closed ch;
  waiting = s.waiting + 1;
}

serial_close_waits :
    (address : Bytes) (s : Serial) (ch : ℕ)
    → s.close_signal ≡ some ch
    → s.closed ch ≡ false
    → state_of (serial_close address s (string address ∷ [])) ≡ with_closing s ch
unfolding serial_close close_port
serial_close_waits address s ch set unclosed = rw (bytes_eq_refl address, set, unclosed)

serial_open_new :
    (address : Bytes) (s : Serial)
    → s.close_signal ≡ none
    → let t = (serial_open address s (string address ∷ [])).0 in
      (t.close_signal ≡ some s.made) × (t.waiting ≡ s.waiting)
unfolding serial_open open_port
serial_open_new address s unset = rw (bytes_eq_refl address, unset) (refl, refl)

reopened :
    (address : Bytes) (s : Serial) (ch : ℕ)
    → s.close_signal ≡ some ch
    → s.closed ch ≡ false
    → ((closed_and_opened address s).close_signal ≡ some s.made)
      × ((closed_and_opened address s).waiting ≡ s.waiting + 1)
reopened address s ch set unclosed =
    rw (closed_and_opened, serial_close_waits address s ch set unclosed)
      (serial_open_new address (with_closing s ch) refl)

-- Where the port has an unclosed close channel: after $/serial/close and, before the loop has
-- looked, $/serial/open, that close goes on waiting for as long as the loop runs alone.
pub overtaken_close_waits :
    (address : Bytes) (s t : Serial) (ch : ℕ)
    → s.close_signal ≡ some ch
    → s.closed ch ≡ false
    → Turns (closed_and_opened address s) t
    → t.waiting ≡ s.waiting + 1
overtaken_close_waits address s t ch set unclosed turns =
    let (signal, waiting) = reopened address s ch set unclosed in
    Turns-waiting s.made turns signal ∙ waiting
