-- ===== src/Strings/Numbers.antt =====
-- Printing a number and reading it again.
use arduino_router.Prelude.{
  ℕ, zero, suc, ◌+◌, ◌-◌, ◌*◌, ◌/◌, ◌%◌, ◌^◌, ◌≤◌, ◌<◌, ◌≡◌, refl, ◌∙◌, some, true, false, Bytes,
  [], ◌∷◌, ℤ, pos, negsuc, leb, ltb, decimal, decimal_digits, arith, Bool-cases, inl, inr,
}
use arduino_router.Strings.{digits_from, digits, signed, atoi, itoa}

abbrev pow10 : ℕ → ℕ
pow10 zero = 1
pow10 (suc f) = 10 * pow10 f

digit_step :
    (v d : ℕ) (acc : Bytes) → d < 10 → digits_from v ((48 + d) ∷ acc) ≡ digits_from (v * 10 + d) acc
unfolding digits_from
digit_step v d acc h =
    let e : 48 + d - 48 ≡ d = omega arith in
    let low : leb 48 (48 + d) ≡ true = ground arith in
    let high : leb (48 + d) 57 ≡ true = ground arith in rw (low, high, e) refl

digits_from-decimal_digits :
    (f n : ℕ) (acc : Bytes)
    → n < pow10 (suc f)
    → digits_from 0 (decimal_digits (suc f) n acc) ≡ digits_from n acc
unfolding decimal_digits
digits_from-decimal_digits zero n acc h =
    let small : ltb n 10 ≡ true = ground arith in
    let e : 0 * 10 + n ≡ n = omega arith in rw small (rw e at (digit_step 0 n acc (omega arith)))
digits_from-decimal_digits (suc f) n acc h = elim (Bool-cases (ltb n 10)) [
  | inl small ↦
      let e : 0 * 10 + n ≡ n = omega arith in rw small (rw e at (digit_step 0 n acc (ground arith)))
  | inr large ↦
      let e : n / 10 * 10 + n % 10 ≡ n = omega arith in
      rw large (
        digits_from-decimal_digits f (n / 10) ((48 + n % 10) ∷ acc) (omega arith)
        ∙ rw e at (digit_step (n / 10) (n % 10) acc (omega arith)))
]

-- The first byte is a digit.
abbrev pub Printed : Bytes → Type 0
Printed s = (c : ℕ) × (cs : Bytes) × (s ≡ c ∷ cs) × (48 ≤ c) × (c ≤ 57)

decimal_digits-Printed_acc :
    (f n : ℕ) (acc : Bytes) → Printed acc → Printed (decimal_digits f n acc)
unfolding decimal_digits
decimal_digits-Printed_acc zero n acc p = p
decimal_digits-Printed_acc (suc f) n acc p = elim (Bool-cases (ltb n 10)) [
  | inl small ↦ rw small (48 + n, acc, refl, omega arith, ground arith)
  | inr large ↦ rw large (
      decimal_digits-Printed_acc f (n / 10) ((48 + n % 10) ∷ acc)
        (48 + n % 10, acc, refl, omega arith, omega arith))
]

pub decimal-Printed : (n : ℕ) → Printed (decimal n)
unfolding decimal decimal_digits
decimal-Printed n = elim (Bool-cases (ltb n 10)) [
  | inl small ↦ rw small (48 + n, [], refl, omega arith, ground arith)
  | inr large ↦ rw large (
      decimal_digits-Printed_acc 19 (n / 10) ((48 + n % 10) ∷ [])
        (48 + n % 10, [], refl, omega arith, omega arith))
]

digits_from-decimal : (n : ℕ) → n < 2 ^ 64 → digits_from 0 (decimal n) ≡ some n
unfolding digits_from decimal
digits_from-decimal n h = digits_from-decimal_digits 19 n [] (omega arith)

digits-decimal : (n : ℕ) → n < 2 ^ 64 → digits (decimal n) ≡ some n
digits-decimal n h =
    let (c, cs, e, low, high) = decimal-Printed n in rw e (rw e at (digits_from-decimal n h))

atoi-unsigned : (c : ℕ) (cs : Bytes) → 48 ≤ c → atoi (c ∷ cs) ≡ signed false (digits (c ∷ cs))
unfolding atoi
atoi-unsigned c cs low = ground arith

pub atoi-decimal : (n : ℕ) → n < 2 ^ 63 → atoi (decimal n) ≡ some (pos n)
atoi-decimal n h =
    let (c, cs, e, low, high) = decimal-Printed n in
    let small : ltb n (2 ^ 63) ≡ true = ground arith in
    let read : digits (c ∷ cs) ≡ some n = rw e at (digits-decimal n (omega arith)) in
    rw e (rw (atoi-unsigned c cs low, read, small))

atoi-negative : (n : ℕ) → n < 2 ^ 63 → atoi (b'-' ∷ decimal (suc n)) ≡ some (negsuc n)
unfolding atoi
atoi-negative n h =
    let small : ltb n (2 ^ 63) ≡ true = ground arith in
    rw (digits-decimal (suc n) (omega arith), small)

-- An `int` of 64 bits.
abbrev pub IsInt : ℤ → Type 0
IsInt (pos n) = n < 2 ^ 63
IsInt (negsuc n) = n < 2 ^ 63

pub atoi-itoa : (z : ℤ) → IsInt z → atoi (itoa z) ≡ some z
unfolding itoa
atoi-itoa (pos n) h = atoi-decimal n h
atoi-itoa (negsuc n) h = atoi-negative n h

-- The first byte is a digit or a sign.
pub itoa_head : (z : ℤ) → (c : ℕ) × (cs : Bytes) × (itoa z ≡ c ∷ cs) × (c ≤ 57)
unfolding itoa
itoa_head (pos n) = let (c, cs, e, low, high) = decimal-Printed n in (c, cs, e, high)
itoa_head (negsuc n) = (b'-', decimal (suc n), refl, omega arith)
