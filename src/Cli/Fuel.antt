-- ===== src/Cli/Fuel.antt =====
-- cmd/arduino-router-cli/main.go, composeArgs: how much fuel its calls need.
use arduino_router.Prelude.{
  ℕ, zero, suc, ◌+◌, ◌*◌, ◌≤◌, ◌<◌, ◌≢◌, ◌++◌, Option, none, some, Bool, true, false, Bytes, List,
  [], ◌∷◌, length, arith, if◌then◌else◌, text, bytes_eq,
}
use arduino_router.Error.{Error, wrapped}
use arduino_router.Value.{Value, Entries, float32, float64, array, done}
use arduino_router.Strings.{cut_prefix}
use arduino_router.Cli.{
  Composed, composed, invalid, panicked, out_of_fuel, and_then, Floats, composed_float, if_prefix,
  compose_word, compose_args, compose_items, compose_entries, compose_pair, compose, command,
  checked, stuck, hashable, put,
}

-- There is a result, and fewer than n words are left.
abbrev pub Ends {ℓ} : {A : Type ℓ} → ℕ → Composed A → Type 0
Ends n (composed a rest) = length rest < n
Ends n (invalid e) = Unit {0}
Ends n panicked = Unit {0}
Ends n out_of_fuel = ⊥

and_then-Ends {ℓ κ} :
    {A : Type ℓ} {B : Type κ} (wrap : Error → Error) (n k : ℕ) (m : Composed A)
    (next : A → List Bytes → Composed B)
    → Ends n m
    → ((a : A) (rest : List Bytes) → length rest < n → Ends k (next a rest))
    → Ends k (and_then wrap m next)
and_then-Ends wrap n k (composed a rest) next h step = step a rest h
and_then-Ends wrap n k (invalid e) next h step = tt
and_then-Ends wrap n k panicked next h step = tt
and_then-Ends wrap n k out_of_fuel next h step = h

weaken {ℓ} : {A : Type ℓ} (n k : ℕ) (m : Composed A) → n ≤ k → Ends n m → Ends k m
weaken n k (composed a rest) le h = omega arith
weaken n k (invalid e) le h = tt
weaken n k panicked le h = tt
weaken n k out_of_fuel le h = h

if-Ends {ℓ} :
    {A : Type ℓ} (n : ℕ) (b : Bool) (x y : Composed A)
    → Ends n x
    → Ends n y
    → Ends n (if b then x else y)
if-Ends n true x y h k = h
if-Ends n false x y h k = k

if_prefix-Ends :
    (n : ℕ) (o : Option Bytes) (found : Bytes → Composed Value) (other : Composed Value)
    → ((v : Bytes) → Ends n (found v))
    → Ends n other
    → Ends n (if_prefix o found other)
if_prefix-Ends n (some v) found other h k = h v
if_prefix-Ends n none found other h k = k

module _ (fl : Floats) where
  composed_float-Ends :
      (make : ℕ → Value) (before s : Bytes) (rest : List Bytes) (o : Option ℕ)
      → Ends (suc (length rest)) (composed_float fl make before s rest o)
  unfolding composed_float
  composed_float-Ends make before s rest (some f) = omega arith
  composed_float-Ends make before s rest none = tt

  compose_word-Ends :
      (s : Bytes) (rest : List Bytes) → Ends (suc (length rest)) (compose_word fl s rest)
  unfolding compose_word
  compose_word-Ends s rest =
      let n = suc (length rest) in
      if-Ends n (bytes_eq s (text "nil")) _ _ (omega arith) (
        if-Ends n (bytes_eq s (text "true")) _ _ (omega arith) (
          if-Ends n (bytes_eq s (text "false")) _ _ (omega arith) (
            if_prefix-Ends n (cut_prefix s (text "f32:")) _ _
              (λ f. composed_float-Ends float32 (text "invalid f32 value: ") s rest (fl.parse32 f))
              (if_prefix-Ends n (cut_prefix s (text "f64:")) _ _
                (λ f.
                  composed_float-Ends float64 (text "invalid f64 value: ") s rest (fl.parse64 f))
                (if_prefix-Ends n (cut_prefix s (text "str:")) _ _ (λ str. omega arith)
                  (omega arith))))))

  mutual
    unfolding compose_args

    compose_args-Ends :
        (f : ℕ) (args : List Bytes)
        → 3 * length args < f
        → Ends (length args) (compose_args fl f args)
    compose_args-Ends zero args h = absurd (omega arith)
    compose_args-Ends (suc f) [] h = tt
    compose_args-Ends (suc f) (s ∷ rest) h =
        let n = suc (length rest) in
        let k = length rest in
        if-Ends n (bytes_eq s (text "[")) _ _
          (and_then-Ends (λ e. e) k n (compose_items fl f rest) _
            (compose_items-Ends f rest (omega arith)) (λ xs r lt. omega arith))
          (if-Ends n (bytes_eq s (text "{")) _ _
            (and_then-Ends (λ e. e) k n (compose_entries fl f done rest) _
              (compose_entries-Ends f done rest (omega arith)) (λ es r lt. omega arith))
            (compose_word-Ends s rest))

    compose_items-Ends :
        (f : ℕ) (args : List Bytes)
        → 3 * length args + 1 < f
        → Ends (length args) (compose_items fl f args)
    compose_items-Ends zero args h = absurd (omega arith)
    compose_items-Ends (suc f) [] h = tt
    compose_items-Ends (suc f) (s ∷ rest) h =
        let n = suc (length rest) in
        if-Ends n (bytes_eq s (text "]")) _ _ (omega arith) (
          and_then-Ends (λ e. e) n n (compose_args fl f (s ∷ rest)) _
            (compose_args-Ends f (s ∷ rest) (omega arith))
            (λ x r lt.
              and_then-Ends (λ e. e) (length r) n (compose_items fl f r) _
                (compose_items-Ends f r (omega arith)) (λ xs r' lt'. omega arith)))

    compose_entries-Ends :
        (f : ℕ) (m : Entries) (args : List Bytes)
        → 3 * length args + 1 < f
        → Ends (length args) (compose_entries fl f m args)
    compose_entries-Ends zero m args h = absurd (omega arith)
    compose_entries-Ends (suc f) m [] h = tt
    compose_entries-Ends (suc f) m (s ∷ rest) h =
        let n = suc (length rest) in
        if-Ends n (bytes_eq s (text "}")) _ _ (omega arith) (
          and_then-Ends (λ e. wrapped (text "invalid map key: ") e []) n n
            (compose_args fl f (s ∷ rest)) _ (compose_args-Ends f (s ∷ rest) (omega arith))
            (λ k r lt.
              weaken (length r) n _ (omega arith) (compose_pair-Ends f m k r (omega arith))))

    compose_pair-Ends :
        (f : ℕ) (m : Entries) (k : Value) (args : List Bytes)
        → 3 * length args + 1 < f
        → Ends (length args) (compose_pair fl f m k args)
    compose_pair-Ends zero m k args h = absurd (omega arith)
    compose_pair-Ends (suc f) m k [] h = tt
    compose_pair-Ends (suc f) m k (s ∷ rest) h =
        let n = suc (length rest) in
        and_then-Ends (λ e. wrapped (text "invalid map value: ") e []) n n
          (compose_args fl f (s ∷ rest)) _ (compose_args-Ends f (s ∷ rest) (omega arith))
          (λ v r lt.
            if-Ends n (hashable k) _ _
              (weaken (length r) n _ (omega arith)
                (compose_entries-Ends f (put fl k v m) r (omega arith)))
              tt)

  pub compose-Ends : (args : List Bytes) → Ends (length args) (compose fl args)
  unfolding compose
  compose-Ends args = compose_args-Ends (suc (3 * length args)) args (omega arith)

  checked-Ends : (method : Bytes) (n : ℕ) (m : Composed Value) → Ends n m → checked method m ≢ stuck
  unfolding checked
  checked-Ends method n (composed (array xs) []) h = cc
  checked-Ends method n (composed v []) h = cc
  checked-Ends method n (composed (array xs) (r ∷ rest)) h = cc
  checked-Ends method n (composed v (r ∷ rest)) h = cc
  checked-Ends method n (invalid e) h = cc
  checked-Ends method n panicked h = cc
  checked-Ends method n out_of_fuel h = absurd h

  -- For every list of words, composing the call does not run out of its fuel, three units for
  -- each word and one more.
  pub command_ends : (words : List Bytes) → command fl words ≢ stuck
  unfolding command
  command_ends [] = cc
  command_ends (method ∷ args) =
      checked-Ends method (length (text "[" ∷ (args ++ (text "]" ∷ []))))
        (compose fl (text "[" ∷ (args ++ (text "]" ∷ []))))
        (compose-Ends (text "[" ∷ (args ++ (text "]" ∷ []))))
