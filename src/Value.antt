-- ===== src/Value.antt =====
-- Values of Go's type `any`, as the RPC layer handles them.
use arduino_router.Prelude.{ℕ, Bool, Bytes, List, [], ◌∷◌, ℤ}

mutual
  -- One constructor for each dynamic type. A float is its IEEE bit pattern, which is only carried.
  pub data Value : Type 0 where
    nil : Value
    bool : Bool → Value
    int int8 int16 int32 int64 : ℤ → Value
    uint uint8 uint16 uint32 uint64 : ℕ → Value
    float32 float64 : ℕ → Value
    string : Bytes → Value
    bytes : Bytes → Value
    raw_message : Bytes → Value
    array : Items → Value
    map_value : Entries → Value

  pub data Items : Type 0 where
    end : Items
    item : Value → Items → Items

  pub data Entries : Type 0 where
    done : Entries
    entry : Value → Value → Entries → Entries

unfoldable pub items : List Value → Items
items [] = end
items (v ∷ vs) = item v (items vs)

unfoldable pub elements : Items → List Value
elements end = []
elements (item v vs) = v ∷ elements vs
