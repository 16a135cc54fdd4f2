-- ===== src/Router/Params.antt =====
-- internal/msgpackrouter/router.go: rawParams, decoded when first asked for.
use arduino_router.Prelude.{Option, none, some, Bytes, List, [], ◌∷◌, map, text}
use arduino_router.Value.{
  Value, nil, bool, int, int8, int16, int32, int64, uint, uint8, uint16, uint32, uint64, float32,
  float64, string, bytes, raw_message, array, map_value,
}

pub record RawParams : Type 0 where
  pub raw : List Value
  pub decoded : Option (List Value)

-- `unmarshal b` is the value of `decoded[i]` after `_ = msgpack.Unmarshal(b, &decoded[i])`.
unfoldable pub decode_one : (Bytes → Value) → Value → Value
decode_one unmarshal (raw_message b) = unmarshal b
decode_one unmarshal other = other

unfoldable pub get : (Bytes → Value) → RawParams → List Value × RawParams
unfolding decode_one
get unmarshal r = elim r.raw [
  | [] ↦ ([], r)
  | p ∷ ps ↦ elim r.decoded [
    | some values ↦ (values, r)
    | none ↦
        let values = map (decode_one unmarshal) (p ∷ ps) in
        (values, record r { decoded = some values })
  ]
]

-- `%T` of a value.
unfoldable pub type_name : Value → Bytes
type_name nil = text "<nil>"
type_name (bool b) = text "bool"
type_name (int n) = text "int"
type_name (int8 n) = text "int8"
type_name (int16 n) = text "int16"
type_name (int32 n) = text "int32"
type_name (int64 n) = text "int64"
type_name (uint n) = text "uint"
type_name (uint8 n) = text "uint8"
type_name (uint16 n) = text "uint16"
type_name (uint32 n) = text "uint32"
type_name (uint64 n) = text "uint64"
type_name (float32 n) = text "float32"
type_name (float64 n) = text "float64"
type_name (string s) = text "string"
type_name (bytes b) = text "[]uint8"
type_name (raw_message b) = text "msgpack.RawMessage"
type_name (array xs) = text "[]interface {}"
type_name (map_value m) = text "map[string]interface {}"
