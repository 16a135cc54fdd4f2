-- ===== src/Reply.antt =====
-- What an internal method hands to `res`, a result and an error, beside the state that it leaves.
use arduino_router.Prelude.{ℕ, Bytes, [], ◌∷◌, pos}
use arduino_router.Value.{Value, nil, int, string, array, items}

abbrev pub Answer : Type 0 → Type 0
Answer S = S × Value × Value

-- res(nil, []any{code, message})
abbrev pub fail : {S : Type 0} → S → ℕ → Bytes → Answer S
fail s code message = (s, nil, array (items (int (pos code) ∷ string message ∷ [])))

-- res(v, nil)
abbrev pub succeed : {S : Type 0} → S → Value → Answer S
succeed s v = (s, v, nil)
