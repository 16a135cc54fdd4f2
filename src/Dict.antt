-- ===== src/Dict.antt =====
-- Go maps as association lists: `m[k]`, `m[k] = v`, `delete(m, k)` and `maps.DeleteFunc`.
-- Clients see the laws; the representation stays in this file, opened only where a test runs.
pub mod Counting
use arduino_router.Prelude.{
  ℕ, ◌≡◌, refl, Bool, true, Option, none, some, List, [], ◌∷◌, arith, Eq, beq_refl, if◌then◌else◌,
  length,
}

pub record Dict {ℓ κ} (K : Type ℓ) (V : Type κ) : Type (ℓ ⊔ κ) where
  pub entries : List (K × V)

abbrev pub empty {ℓ κ} : {K : Type ℓ} {V : Type κ} → Dict K V
empty = record { entries = [] }

-- What is left of a found value once the values that pass `p` are dropped.
abbrev pub without {κ} : {V : Type κ} → (V → Bool) → Option V → Option V
without p none = none
without p (some v) = if p v then none else some v

module _ {ℓ κ} {K : Type ℓ} {V : Type κ} ⦃e : Eq K⦄ where
  unfoldable pub lookup_in : K → List (K × V) → Option V
  lookup_in k [] = none
  lookup_in k ((j, v) ∷ l) = if e.beq j k then some v else lookup_in k l

  unfoldable pub insert_in : K → V → List (K × V) → List (K × V)
  insert_in k v [] = (k, v) ∷ []
  insert_in k v ((j, w) ∷ l) = if e.beq j k then (k, v) ∷ l else (j, w) ∷ insert_in k v l

  unfoldable pub delete_in : K → List (K × V) → List (K × V)
  delete_in k [] = []
  delete_in k ((j, v) ∷ l) = let rest = delete_in k l in if e.beq j k then rest else (j, v) ∷ rest

  -- A key that is dropped is dropped whole: a list with one entry for each key keeps `rest` as it is.
  unfoldable pub delete_func_in : (V → Bool) → List (K × V) → List (K × V)
  unfolding delete_in
  delete_func_in p [] = []
  delete_func_in p ((j, v) ∷ l) =
      let rest = delete_in j (delete_func_in p l) in if p v then rest else (j, v) ∷ rest

  unfoldable pub lookup : K → Dict K V → Option V
  unfolding lookup_in
  lookup k m = lookup_in k m.entries

  unfoldable pub insert : K → V → Dict K V → Dict K V
  unfolding insert_in
  insert k v m = record { entries = insert_in k v m.entries }

  unfoldable pub delete : K → Dict K V → Dict K V
  unfolding delete_in
  delete k m = record { entries = delete_in k m.entries }

  -- maps.DeleteFunc, with a test of the value.
  unfoldable pub delete_func : (V → Bool) → Dict K V → Dict K V
  unfolding delete_func_in
  delete_func p m = record { entries = delete_func_in p m.entries }

  unfoldable pub size : Dict K V → ℕ
  size m = length m.entries

  pub lookup-empty : (k : K) → lookup k empty ≡ none
  unfolding lookup
  lookup-empty k = refl

  lookup_in-insert_in :
      (k j : K) (v : V) (l : List (K × V))
      → lookup_in j (insert_in k v l) ≡ (if e.beq k j then some v else lookup_in j l)
  unfolding lookup_in insert_in
  lookup_in-insert_in k j v [] = refl
  lookup_in-insert_in k j v ((i, w) ∷ l) =
      ground (arith, lookup_in-insert_in k j v l, e.beq_iff i k, e.beq_iff i j, e.beq_iff k j)

  pub lookup-insert :
      (k j : K) (v : V) (m : Dict K V)
      → lookup j (insert k v m) ≡ (if e.beq k j then some v else lookup j m)
  unfolding lookup insert
  lookup-insert k j v m = lookup_in-insert_in k j v m.entries

  lookup_in-delete_in :
      (k j : K) (l : List (K × V))
      → lookup_in j (delete_in k l) ≡ (if e.beq k j then none else lookup_in j l)
  unfolding lookup_in delete_in
  lookup_in-delete_in k j [] = ground arith
  lookup_in-delete_in k j ((i, w) ∷ l) =
      ground (arith, lookup_in-delete_in k j l, e.beq_iff i k, e.beq_iff i j, e.beq_iff k j)

  pub lookup-delete :
      (k j : K) (m : Dict K V) → lookup j (delete k m) ≡ (if e.beq k j then none else lookup j m)
  unfolding lookup delete
  lookup-delete k j m = lookup_in-delete_in k j m.entries

  lookup_in-delete_func_in :
      (p : V → Bool) (j : K) (l : List (K × V))
      → lookup_in j (delete_func_in p l) ≡ without p (lookup_in j l)
  unfolding lookup_in delete_func_in
  lookup_in-delete_func_in p j [] = refl
  lookup_in-delete_func_in p j ((i, w) ∷ l) = ground (
    arith,
    lookup_in-delete_func_in p j l,
    lookup_in-delete_in i j (delete_func_in p l),
    e.beq_iff i j,
  )

  pub lookup-delete_func :
      (p : V → Bool) (j : K) (m : Dict K V) → lookup j (delete_func p m) ≡ without p (lookup j m)
  unfolding lookup delete_func
  lookup-delete_func p j m = lookup_in-delete_func_in p j m.entries

  pub lookup-insert_self : (k : K) (v : V) (m : Dict K V) → lookup k (insert k v m) ≡ some v
  lookup-insert_self k v m = simp (lookup-insert, beq_refl)

  pub lookup-delete_self : (k : K) (m : Dict K V) → lookup k (delete k m) ≡ none
  lookup-delete_self k m = simp (lookup-delete, beq_refl)

  -- Writing under a key that no entry had and removing it again changes no lookup.
  pub lookup-delete-insert :
      (k j : K) (v : V) (m : Dict K V)
      → lookup k m ≡ none
      → lookup j (delete k (insert k v m)) ≡ lookup j m
  lookup-delete-insert k j v m h =
      simp (lookup-delete, lookup-insert) (ground (arith, e.beq_iff k j))

pub ruleset dict_laws = (lookup-empty, lookup-insert, lookup-delete, lookup-delete_func, beq_refl)
