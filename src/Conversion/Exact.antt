-- ===== src/Conversion/Exact.antt =====
-- The conversions return the number that a value stands for, or nothing.
use arduino_router.Prelude.{
  ℕ, ◌^◌, ◌≤◌, ◌<◌, ◌≡◌, ◌↔◌, Option, none, some, ℤ, pos, arith, pos_part, neg_part,
}
use arduino_router.Value.{
  Value, int, int8, int16, int32, int64, uint, uint8, uint16, uint32, uint64,
}
use arduino_router.Conversion.{to_int, to_uint}

-- The integer that a value of one of Go's ten integer types stands for.
abbrev pub number : Value → Option ℤ
number (int v) = some v
number (int8 v) = some v
number (int16 v) = some v
number (int32 v) = some v
number (int64 v) = some v
number (uint v) = some (pos v)
number (uint8 v) = some (pos v)
number (uint16 v) = some (pos v)
number (uint32 v) = some (pos v)
number (uint64 v) = some (pos v)
number _ = none

abbrev pub SignedBelow : ℕ → ℤ → Type 0
SignedBelow m v = (pos_part v < m) × (neg_part v ≤ m)

-- The numbers of a value lie in the range of its Go type.
abbrev pub InRange : Value → Type 0
InRange (int v) = SignedBelow (2 ^ 63) v
InRange (int8 v) = SignedBelow (2 ^ 7) v
InRange (int16 v) = SignedBelow (2 ^ 15) v
InRange (int32 v) = SignedBelow (2 ^ 31) v
InRange (int64 v) = SignedBelow (2 ^ 63) v
InRange (uint v) = v < 2 ^ 64
InRange (uint8 v) = v < 2 ^ 8
InRange (uint16 v) = v < 2 ^ 16
InRange (uint32 v) = v < 2 ^ 32
InRange (uint64 v) = v < 2 ^ 64
InRange _ = Unit {0}

-- For a value in the range of its Go type, to_int gives n exactly when the value is the integer n
-- and n fits 64 bits signed.
pub to_int_exact :
    (v : Value) (n : ℤ)
    → InRange v
    → (to_int v ≡ some n) ↔ ((number v ≡ some n) × SignedBelow (2 ^ 63) n)
unfolding to_int
to_int_exact (int v) n r = (λ h. ground arith, λ h. h.0)
to_int_exact (int8 v) n r = (λ h. ground arith, λ h. h.0)
to_int_exact (int16 v) n r = (λ h. ground arith, λ h. h.0)
to_int_exact (int32 v) n r = (λ h. ground arith, λ h. h.0)
to_int_exact (int64 v) n r = (λ h. ground arith, λ h. h.0)
to_int_exact _ n r = (λ h. ground arith, λ h. ground arith)

-- to_uint gives n exactly when the value is of an integer type and is n, and n is not negative.
pub to_uint_exact : (v : Value) (n : ℕ) → (to_uint v ≡ some n) ↔ (number v ≡ some (pos n))
unfolding to_uint
to_uint_exact (int v) n = (λ h. ground arith, λ h. ground arith)
to_uint_exact _ n = (λ h. ground arith, λ h. ground arith)
