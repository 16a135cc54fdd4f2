-- ===== src/Strings.antt =====
-- What the program uses of Go's packages strconv and strings: Atoi, CutPrefix and Contains.
pub mod Numbers
use arduino_router.Prelude.{
  ℕ, zero, suc, ◌+◌, ◌-◌, ◌*◌, ◌^◌, Option, none, some, Bool, true, false, ◌&&◌, ◌||◌, Bytes, [],
  ◌∷◌, ◌++◌, ℤ, pos, negsuc, leb, ltb, ◌==◌, if◌then◌else◌, text, decimal,
}

-- `none` is an empty text or one with another byte than a digit.
unfoldable pub digits_from : ℕ → Bytes → Option ℕ
digits_from v [] = some v
digits_from v (c ∷ cs) =
    let rest = digits_from (v * 10 + (c - 48)) cs in if leb 48 c && leb c 57 then rest else none

abbrev pub digits : Bytes → Option ℕ
digits [] = none
digits (c ∷ cs) = digits_from 0 (c ∷ cs)

-- An `int` has 64 bits; `none` is a range error.
abbrev pub in_range : Bool → ℕ → Option ℤ
in_range false n = if ltb n (2 ^ 63) then some (pos n) else none
in_range true zero = some (pos 0)
in_range true (suc n) = if ltb n (2 ^ 63) then some (negsuc n) else none

abbrev pub signed : Bool → Option ℕ → Option ℤ
signed negative none = none
signed negative (some n) = in_range negative n

-- strconv.Atoi: digits behind at most one sign. `none` is an error.
unfoldable pub atoi : Bytes → Option ℤ
unfolding digits_from
atoi [] = none
atoi (c ∷ cs) =
    if c == b'-'
    then signed true (digits cs)
    else if c == b'+'
    then signed false (digits cs)
    else signed false (digits (c ∷ cs))

-- strings.CutPrefix: the text behind the prefix.
unfoldable pub cut_prefix : Bytes → Bytes → Option Bytes
cut_prefix s [] = some s
cut_prefix [] (p ∷ ps) = none
cut_prefix (c ∷ cs) (p ∷ ps) = let rest = cut_prefix cs ps in if c == p then rest else none

-- strconv.Itoa
unfoldable pub itoa : ℤ → Bytes
itoa (pos n) = decimal n
itoa (negsuc n) = b'-' ∷ decimal (suc n)

-- strings.Contains, of a text of one byte.
abbrev pub contains : ℕ → Bytes → Bool
contains c [] = false
contains c (x ∷ xs) = x == c || contains c xs
