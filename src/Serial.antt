-- ===== src/Serial.antt =====
-- main.go, startRouter: the serial port. The methods $/serial/open and $/serial/close and the loop that
-- opens and serves the port share `serialCloseSignal` under one mutex, so what one of them does while
-- it holds the mutex is one step.
mod Steps
mod Progress
mod Tests
use arduino_router.Prelude.{
  ℕ, ◌+◌, ◌≡◌, Option, none, some, Bool, true, false, Bytes, List, [], ◌∷◌, ◌==◌, if◌then◌else◌,
  text, bytes_eq,
}
use arduino_router.Value.{Value, string, bool, nil}
use arduino_router.Reply.{Answer, fail, succeed}

-- Where the loop is: before its test, in serialOpened.Wait(), in serial.Open with the channel `close`
-- that it has taken, behind a failure to open in waitForPort or Sleep, in the `select` over the exit of
-- the connection and `close`, and behind it.
pub data Place : Type 0 where
  checking : Place
  asleep : Place
  opening : ℕ → Place
  searching : Place
  serving : ℕ → Place
  draining : Place

-- A channel is known by the order of its making. `waiting` counts the calls of $/serial/close that are
-- in serialClosed.Wait().
pub record Serial : Type 0 where
  pub close_signal : Option ℕ
  pub made : ℕ
  pub closed : ℕ → Bool
  pub waiting : ℕ
  pub place : Place

-- The channel is made before the loop starts.
unfoldable pub initial : Serial
initial = record {
  close_signal = some 0;
  made = 1;
  closed = λ ch. false;
  waiting = 0;
  place = checking;
}

-- serialOpened.Broadcast()
abbrev pub wake : Place → Place
wake asleep = checking
wake other = other

abbrev pub closing : (ℕ → Bool) → ℕ → ℕ → Bool
closing closed ch j = if ch == j then true else closed j

open_port : Serial → Option ℕ → Serial
open_port s none = record s { close_signal = some s.made; made = s.made + 1; place = wake s.place }
open_port s (some ch) = s

-- $/serial/open, where `address` is cfg.SerialPortAddr.
unfoldable pub serial_open : Bytes → Serial → List Value → Answer Serial
unfolding open_port
serial_open address s (string a ∷ []) =
    if bytes_eq a address
    then succeed (open_port s s.close_signal) (bool true)
    else fail s 1 (text "Invalid serial port address")
serial_open address s (other ∷ []) = fail s 1 (text "Invalid parameter type")
serial_open address s params = fail s 1 (text "Invalid number of parameters")

-- An answer at once, a wait for the loop, or the panic of `close` on a closed channel.
pub data Outcome : Type 0 where
  answers : Answer Serial → Outcome
  waits : Serial → Outcome
  panics : Serial → Outcome

abbrev pub state_of : Outcome → Serial
state_of (answers a) = a.0
state_of (waits s) = s
state_of (panics s) = s

close_port : Serial → Option ℕ → Outcome
close_port s none = answers (succeed s (bool true))
close_port s (some ch) =
    if s.closed ch
    then panics s
    else waits
        (record s { close_signal = none; closed = closing s.closed ch; waiting = s.waiting + 1 })

-- $/serial/close
unfoldable pub serial_close : Bytes → Serial → List Value → Outcome
unfolding close_port
serial_close address s (string a ∷ []) =
    if bytes_eq a address
    then close_port s s.close_signal
    else answers (fail s 1 (text "Invalid serial port address"))
serial_close address s (other ∷ []) = answers (fail s 1 (text "Invalid parameter type"))
serial_close address s params = answers (fail s 1 (text "Invalid number of parameters"))

check_signal : Serial → Option ℕ → Serial
check_signal s none = record s { waiting = 0; place = asleep }
check_signal s (some ch) = record s { place = opening ch }

-- The test of the inner loop: without a channel serialClosed.Broadcast() answers those who wait, and
-- the loop sleeps; with one it goes on.
unfoldable pub check : Serial → Serial
unfolding check_signal
check s = check_signal s s.close_signal

abbrev pub at : Serial → Place → Serial
at s p = record s { place = p }

-- The steps of the loop that come without the port. `opens` and `fails` are the two results of
-- serial.Open, `exits` and `told` the two cases of the `select`, and `drained` comes when the router has
-- dropped the connection.
pub data Turn : Serial → Serial → Type 0 where
  checks : (s : Serial) → s.place ≡ checking → Turn s (check s)
  opens : (s : Serial) (ch : ℕ) → s.place ≡ opening ch → Turn s (at s (serving ch))
  fails : (s : Serial) (ch : ℕ) → s.place ≡ opening ch → Turn s (at s searching)
  exits : (s : Serial) (ch : ℕ) → s.place ≡ serving ch → Turn s (at s draining)
  told : (s : Serial) (ch : ℕ) → s.place ≡ serving ch → s.closed ch ≡ true → Turn s (at s draining)
  drained : (s : Serial) → s.place ≡ draining → Turn s (at s checking)

-- The loop's steps; `found` is the end of waitForPort or Sleep. waitForPort may never end, as it waits for
-- the file of the port, and it does not watch the close channel.
pub data Loop : Serial → Serial → Type 0 where
  goes_on : {s t : Serial} → Turn s t → Loop s t
  found : (s : Serial) → s.place ≡ searching → Loop s (at s checking)

-- The loop alone.
pub data Turns (s : Serial) : Serial → Type 0 where
  still : Turns s s
  turn : {t u : Serial} → Turns s t → Loop t u → Turns s u

-- The loop and the calls of the two methods, in any order.
pub data Step (address : Bytes) : Serial → Serial → Type 0 where
  loops : {s t : Serial} → Loop s t → Step address s t
  calls_open : (s : Serial) (params : List Value) → Step address s (serial_open address s params).0
  calls_close :
      (s : Serial) (params : List Value) → Step address s (state_of (serial_close address s params))

pub data Reach (address : Bytes) (s : Serial) : Serial → Type 0 where
  here : Reach address s s
  next : {t u : Serial} → Reach address s t → Step address t u → Reach address s u
