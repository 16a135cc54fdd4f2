-- ===== src/Serial/Steps.antt =====
-- main.go, startRouter: what holds of the serial port's state whatever the loop and the callers do.
use arduino_router.Prelude.{
  ℕ, ◌<◌, ◌≤◌, ◌≡◌, ◌≢◌, ◌⊎◌, refl, Option, none, some, true, false, Bytes, List, [], ◌∷◌, bytes_eq,
  arith, Bool-cases, Option-cases, inl, inr,
}
use arduino_router.Value.{Value, string}
use arduino_router.Serial.{
  Serial, Place, checking, asleep, opening, searching, serving, draining, initial, wake, open_port,
  serial_open, panics, state_of, close_port, serial_close, check_signal, check, at, Turn, checks,
  opens, fails, exits, told, drained, Loop, goes_on, found, Step, loops, calls_open, calls_close,
  Reach, here, next,
}

-- The channel that the loop has taken, at its place.
abbrev pub Taken : Place → ℕ → Type 0
Taken (opening j) ch = j ≡ ch
Taken (serving j) ch = j ≡ ch
Taken other ch = ⊥

pub record IsValid (s : Serial) : Type 0 where
  -- The current channel was made, and is not closed.
  pub current : (ch : ℕ) → s.close_signal ≡ some ch → (ch < s.made) × (s.closed ch ≡ false)
  -- Channels that are yet to be made are not closed.
  pub fresh : (ch : ℕ) → s.made ≤ ch → s.closed ch ≡ false
  -- The loop sleeps only without a channel, and nobody waits for it then.
  pub rests : s.place ≡ asleep → (s.close_signal ≡ none) × (s.waiting ≡ 0)
  -- The loop's channel is the current one, or closed.
  pub taken : (ch : ℕ) → Taken s.place ch → (s.close_signal ≡ some ch) ⊎ (s.closed ch ≡ true)

pub initial-IsValid : IsValid initial
unfolding initial
initial-IsValid = record {
  current = λ ch e. ground arith;
  fresh = λ ch e. refl;
  rests = λ e. ground arith;
  taken = λ ch h. absurd h;
}

-- A change of the loop's place.
at-IsValid :
    (s : Serial) (p : Place)
    → p ≢ asleep
    → ((ch : ℕ) → Taken p ch → Taken s.place ch ⊎ (s.close_signal ≡ some ch))
    → IsValid s
    → IsValid (at s p)
at-IsValid s p awake same v = record {
  current = v.current;
  fresh = v.fresh;
  rests = λ e. absurd (awake e);
  taken = λ ch h. elim (same ch h) [ inl old ↦ v.taken ch old | inr new ↦ inl new ];
}

check-IsValid :
    (s : Serial) (o : Option ℕ) → s.close_signal ≡ o → IsValid s → IsValid (check_signal s o)
unfolding check_signal
check-IsValid s none e v = record {
  current = v.current;
  fresh = v.fresh;
  rests = λ p. (e, refl);
  taken = λ ch h. absurd h;
}
check-IsValid s (some ch) e v = at-IsValid s (opening ch) (λ p. cc) (λ j h. inr (rw h at e)) v

Turn-IsValid : {s t : Serial} → Turn s t → IsValid s → IsValid t
unfolding check
Turn-IsValid (checks s e) v = check-IsValid s s.close_signal refl v
Turn-IsValid (opens s ch e) v = at-IsValid s (serving ch) (λ p. cc) (λ j h. inl (rw e h)) v
Turn-IsValid (fails s ch e) v = at-IsValid s searching (λ p. cc) (λ j h. absurd h) v
Turn-IsValid (exits s ch e) v = at-IsValid s draining (λ p. cc) (λ j h. absurd h) v
Turn-IsValid (told s ch e c) v = at-IsValid s draining (λ p. cc) (λ j h. absurd h) v
Turn-IsValid (drained s e) v = at-IsValid s checking (λ p. cc) (λ j h. absurd h) v

Loop-IsValid : {s t : Serial} → Loop s t → IsValid s → IsValid t
Loop-IsValid (goes_on turn) v = Turn-IsValid turn v
Loop-IsValid (found s e) v = at-IsValid s checking (λ p. cc) (λ j h. absurd h) v

wake-ne-asleep : (p : Place) → wake p ≢ asleep
wake-ne-asleep checking e = cc
wake-ne-asleep asleep e = cc
wake-ne-asleep p e = cc

Taken-wake : (p : Place) (ch : ℕ) → Taken (wake p) ch → Taken p ch
Taken-wake checking ch h = h
Taken-wake asleep ch h = absurd h
Taken-wake p ch h = h

open_port-IsValid :
    (s : Serial) (o : Option ℕ) → s.close_signal ≡ o → IsValid s → IsValid (open_port s o)
unfolding open_port
open_port-IsValid s none e v = record {
  current = λ ch now. ground (arith, v.fresh s.made);
  fresh = λ ch le. v.fresh ch (omega arith);
  rests = λ sleeps. absurd (wake-ne-asleep s.place sleeps);
  taken = λ ch h. elim (v.taken ch (Taken-wake s.place ch h)) [
    | inl old ↦ cc (e, old)
    | inr shut ↦ inr shut
  ];
}
open_port-IsValid s (some ch) e v = v

close_port-IsValid :
    (s : Serial) (o : Option ℕ)
    → s.close_signal ≡ o
    → IsValid s
    → IsValid (state_of (close_port s o))
unfolding close_port
close_port-IsValid s none e v = v
close_port-IsValid s (some ch) e v =
    let (made, unclosed) = v.current ch e in
    rw unclosed (record {
      current = λ j now. cc;
      fresh = λ j le. ground (arith, v.fresh j);
      rests = λ sleeps. let (unset, nobody) = v.rests sleeps in cc (e, unset);
      taken = λ j h. inr (elim (v.taken j h) [ inl own ↦ ground arith | inr shut ↦ ground arith ]);
    })

serial_open-IsValid :
    (address : Bytes) (s : Serial) (params : List Value)
    → IsValid s
    → IsValid (serial_open address s params).0
unfolding serial_open
serial_open-IsValid address s [] v = v
serial_open-IsValid address s (string a ∷ []) v = elim (Bool-cases (bytes_eq a address)) [
  | inl same ↦ rw same (open_port-IsValid s s.close_signal refl v)
  | inr other ↦ rw other v
]
serial_open-IsValid address s (p ∷ []) v = v
serial_open-IsValid address s (string a ∷ q ∷ rest) v = v
serial_open-IsValid address s (p ∷ q ∷ rest) v = v

serial_close-IsValid :
    (address : Bytes) (s : Serial) (params : List Value)
    → IsValid s
    → IsValid (state_of (serial_close address s params))
unfolding serial_close
serial_close-IsValid address s [] v = v
serial_close-IsValid address s (string a ∷ []) v = elim (Bool-cases (bytes_eq a address)) [
  | inl same ↦ rw same (close_port-IsValid s s.close_signal refl v)
  | inr other ↦ rw other v
]
serial_close-IsValid address s (p ∷ []) v = v
serial_close-IsValid address s (string a ∷ q ∷ rest) v = v
serial_close-IsValid address s (p ∷ q ∷ rest) v = v

Step-IsValid : {address : Bytes} {s t : Serial} → Step address s t → IsValid s → IsValid t
Step-IsValid (loops turn) v = Loop-IsValid turn v
Step-IsValid {address} (calls_open s params) v = serial_open-IsValid address s params v
Step-IsValid {address} (calls_close s params) v = serial_close-IsValid address s params v

pub Reach-IsValid : {address : Bytes} {s t : Serial} → Reach address s t → IsValid s → IsValid t
Reach-IsValid here v = v
Reach-IsValid (next r st) v = Step-IsValid st (Reach-IsValid r v)

pub serial-IsValid : (address : Bytes) (s : Serial) → Reach address initial s → IsValid s
serial-IsValid address s r = Reach-IsValid r initial-IsValid

close_port_safe : (s t : Serial) → IsValid s → close_port s s.close_signal ≢ panics t
unfolding close_port
close_port_safe s t v = elim (Option-cases s.close_signal) [
  | inl unset ↦ rw unset (λ e. cc)
  | inr (ch, set) ↦ let unclosed = (v.current ch set).1 in rw (set, unclosed) (λ e. cc)
]

-- In every state that the calls and the loop of the serial port reach, $/serial/close, with any
-- parameters, does not close a closed channel.
pub close_is_safe :
    (address : Bytes) (s t : Serial) (params : List Value)
    → Reach address initial s
    → serial_close address s params ≢ panics t
unfolding serial_close
close_is_safe address s t [] r = λ e. cc
close_is_safe address s t (string a ∷ []) r = elim (Bool-cases (bytes_eq a address)) [
  | inl same ↦ rw same (close_port_safe s t (serial-IsValid address s r))
  | inr other ↦ rw other (λ e. cc)
]
close_is_safe address s t (p ∷ []) r = λ e. cc
close_is_safe address s t (string a ∷ q ∷ rest) r = λ e. cc
close_is_safe address s t (p ∷ q ∷ rest) r = λ e. cc
