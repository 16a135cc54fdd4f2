-- ===== src/Serial/Tests.antt =====
-- Runs of the serial port's loop and the theorems at concrete runs.
use arduino_router.Prelude.{◌+◌, ◌≡◌, ◌≢◌, refl, none, some, false, Bytes, [], ◌∷◌, text, bytes_eq}
use arduino_router.Value.{string}
use arduino_router.Serial.{
  Serial, checking, opening, searching, serving, initial, state_of, panics, serial_close, check, at,
  checks, opens, goes_on, still, Reach, here, next, loops, calls_close,
}
use arduino_router.Serial.Steps.{IsValid, serial-IsValid, close_is_safe}
use arduino_router.Serial.Progress.{closed_and_opened, overtaken_close_waits}

abbrev port : Bytes
port = text "/dev/ttyHS1"

-- The port is served.
abbrev served : Serial
served = at (check initial) (serving 0)

served_place : (check initial).place ≡ opening 0
unfolding initial check
served_place = refl

initial_place : initial.place ≡ checking
unfolding initial
initial_place = refl

served-Reach : Reach port initial served
served-Reach =
    next (next here (loops (goes_on (checks initial initial_place))))
      (loops (goes_on (opens (check initial) 0 served_place)))

-- A close waits for the loop.
abbrev closing_down : Serial
closing_down = state_of (serial_close port served (string port ∷ []))

closing_down-Reach : Reach port initial closing_down
closing_down-Reach = next served-Reach (calls_close served (string port ∷ []))

unset : closing_down.close_signal ≡ none
unfolding serial_close initial check bytes_eq
unset = refl

serial-IsValid_example : IsValid closing_down
serial-IsValid_example = serial-IsValid port closing_down closing_down-Reach

close_is_safe_example : serial_close port served (string port ∷ []) ≢ panics served
close_is_safe_example = close_is_safe port served served (string port ∷ []) served-Reach

-- The port could not be opened, and is waited for, with a close that waits too.
abbrev missing : Serial
missing = state_of (serial_close port (at (check initial) searching) (string port ∷ []))

-- The loop of `missing` waits for the port while the close waits for it.
missing_waits : (missing.place ≡ searching) × (missing.waiting ≡ 1)
unfolding serial_close initial check bytes_eq
missing_waits = (refl, refl)

served_signal : served.close_signal ≡ some 0
unfolding initial check
served_signal = refl

unclosed : served.closed 0 ≡ false
unfolding initial check
unclosed = refl

overtaken_close_waits_example : (closed_and_opened port served).waiting ≡ served.waiting + 1
overtaken_close_waits_example =
    overtaken_close_waits port served (closed_and_opened port served) 0 served_signal unclosed still
