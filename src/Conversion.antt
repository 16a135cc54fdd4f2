-- ===== src/Conversion.antt =====
-- msgpackrpc/type_conversion.go, with `int` and `uint` of 64 bits. `Exact` proves what they return.
pub mod Exact
mod Tests
use arduino_router.Prelude.{
  ℕ, ◌-◌, ◌^◌, Bool, Option, none, some, ℤ, pos, ltb, ltb_ℤ, if◌then◌else◌, pos_part,
}
use arduino_router.Value.{
  Value, int, int8, int16, int32, int64, uint, uint8, uint16, uint32, uint64,
}

-- math.MaxInt64
abbrev pub max_int64 : ℕ
max_int64 = 2 ^ 63 - 1

-- `none` is the result `0, false`.
unfoldable pub to_int : Value → Option ℤ
to_int (int v) = some v
to_int (int8 v) = some v
to_int (int16 v) = some v
to_int (int32 v) = some v
to_int (int64 v) = some v
to_int (uint v) = if ltb max_int64 v then none else some (pos v)
to_int (uint8 v) = some (pos v)
to_int (uint16 v) = some (pos v)
to_int (uint32 v) = some (pos v)
to_int (uint64 v) = if ltb max_int64 v then none else some (pos v)
to_int _ = none

-- `if v < 0 { return 0, false }; return uint(v), true`
abbrev pub non_negative : ℤ → Option ℕ
non_negative v = if ltb_ℤ v (pos 0) then none else some (pos_part v)

unfoldable pub to_uint : Value → Option ℕ
to_uint (int v) = non_negative v
to_uint (int8 v) = non_negative v
to_uint (int16 v) = non_negative v
to_uint (int32 v) = non_negative v
to_uint (int64 v) = non_negative v
to_uint (uint v) = some v
to_uint (uint8 v) = some v
to_uint (uint16 v) = some v
to_uint (uint32 v) = some v
to_uint (uint64 v) = some v
to_uint _ = none
