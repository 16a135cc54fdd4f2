-- ===== src/Conversion/Tests.antt =====
-- Tests of the conversions, and their theorems at concrete values.
use arduino_router.Prelude.{◌≡◌, refl, none, some, negsuc, arith, ◌↔◌}
use arduino_router.Value.{int8, uint64, bool}
use arduino_router.Prelude.{true}
use arduino_router.Conversion.{to_int, to_uint}
use arduino_router.Conversion.Exact.{SignedBelow, number, to_int_exact}

out_of_range : to_int (uint64 9223372036854775808) ≡ none
unfolding to_int
out_of_range = refl

no_number : to_uint (bool true) ≡ none
unfolding to_uint
no_number = refl

to_int_exact_example :
    (to_int (int8 (negsuc 4)) ≡ some (negsuc 4))
    ↔ ((number (int8 (negsuc 4)) ≡ some (negsuc 4)) × SignedBelow 9223372036854775808 (negsuc 4))
to_int_exact_example = to_int_exact (int8 (negsuc 4)) (negsuc 4) (omega arith)
