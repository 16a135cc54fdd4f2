-- ===== src/Port/Search.antt =====
-- main.go, waitForPort: the search for the nearest ancestor that exists.
use arduino_router.Prelude.{
  ℕ, zero, suc, ◌+◌, ◌≤◌, ◌<◌, ◌≡◌, ◌≢◌, refl, subst, ◌⊎◌, ap, Bool, true, false, Bytes, List, [],
  ◌∷◌, length, bytes_eq, arith, Bool-cases, inl, inr, ◌&&◌, if◌then◌else◌,
}
use arduino_router.Port.{
  CleanPath, dir, drop_part, parts_eq, bool_eq, path_eq, Nearest, found, nowhere, out_of_fuel,
  nearest, nearest_existing,
}

-- filepath.Dir, so many times.
abbrev pub ancestor : ℕ → CleanPath → CleanPath
ancestor zero d = d
ancestor (suc k) d = ancestor k (dir d)

-- The first ancestor that os.Stat finds, or that it finds none up to the last.
abbrev pub IsNearest : (ℕ → CleanPath → Bool) → ℕ → CleanPath → Nearest → Type 0
IsNearest stat i d (found p) =
    (k : ℕ) × (k ≤ length d.parts)
    × (p ≡ ancestor k d)
    × (stat (i + k) p ≡ true)
    × ((j : ℕ) → j < k → stat (i + j) (ancestor j d) ≡ false)
IsNearest stat i d nowhere = (j : ℕ) → j ≤ length d.parts → stat (i + j) (ancestor j d) ≡ false
IsNearest stat i d out_of_fuel = ⊥

pub parts_eq_length : (a b : List Bytes) → parts_eq a b ≡ true → length a ≡ length b
parts_eq_length [] [] e = refl
parts_eq_length [] (t ∷ ts) e = cc
parts_eq_length (s ∷ ss) [] e = cc
parts_eq_length (s ∷ ss) (t ∷ ts) e = elim (Bool-cases (bytes_eq s t)) [
  | inl same ↦ ap suc (parts_eq_length ss ts (rw same at e))
  | inr other ↦ ground arith
]

-- Paths of different lengths are not equal.
pub path_eq_deeper : (p q : CleanPath) → length p.parts ≢ length q.parts → path_eq p q ≡ false
unfolding path_eq
path_eq_deeper p q differ = elim (Bool-cases (parts_eq p.parts q.parts)) [
  | inl same ↦ absurd (differ (parts_eq_length p.parts q.parts same))
  | inr other ↦ rw other (ground arith)
]

module _ (stat : ℕ → CleanPath → Bool) (i : ℕ) where
  absent_here :
      (d : CleanPath) (n : ℕ)
      → stat i d ≡ false
      → ((j : ℕ) → j < n → stat (suc i + j) (ancestor j (dir d)) ≡ false)
      → (j : ℕ) → j < suc n
      → stat (i + j) (ancestor j d) ≡ false
  absent_here d n here above zero h = subst (λ n. stat n d ≡ false) (omega arith) here
  absent_here d n here above (suc j) h =
      subst (λ n. stat n (ancestor j (dir d)) ≡ false) (omega arith) (above j (omega arith))

  above-IsNearest :
      (d : CleanPath) (r : Nearest)
      → length d.parts ≡ suc (length (dir d).parts)
      → stat i d ≡ false
      → IsNearest stat (suc i) (dir d) r
      → IsNearest stat i d r
  above-IsNearest d (found p) more here (k, least, same, there, above) = (
    suc k,
    omega arith,
    same,
    subst (λ n. stat n p ≡ true) (omega arith) there,
    absent_here d k here above,
  )
  above-IsNearest d nowhere more here above =
      let above' : (j : ℕ)
          → j < suc (length (dir d).parts)
          → stat (suc i + j) (ancestor j (dir d)) ≡ false =
        λ j h. above j (omega arith) in
      λ j h. absent_here d (suc (length (dir d).parts)) here above' j (omega arith)
  above-IsNearest d out_of_fuel more here above = above

  none_left : {j : ℕ} → j ≤ 0 → 0 ≡ j
  none_left h = omega arith

  last-IsNearest : (d : CleanPath) → d.parts ≡ [] → stat i d ≡ false → IsNearest stat i d nowhere
  last-IsNearest d last here j h =
      subst (λ n. stat (i + n) (ancestor n d) ≡ false) (none_left (rw last at h))
        (subst (λ n. stat n d ≡ false) (omega arith) here)

pub bool_eq_refl : (b : Bool) → (bool_eq b b && true) ≡ true
bool_eq_refl true = refl
bool_eq_refl false = refl

at_zero :
    (stat : ℕ → CleanPath → Bool) (i : ℕ) (d : CleanPath) → stat i d ≡ true → stat (i + 0) d ≡ true
at_zero stat i d there = subst (λ n. stat n d ≡ true) (omega arith) there

parts_cases_of : (ps : List Bytes) → (ps ≡ []) ⊎ (length ps ≡ suc (length (drop_part ps)))
parts_cases_of [] = inl refl
parts_cases_of (s ∷ ss) = inr refl

parts_cases : (d : CleanPath) → (d.parts ≡ []) ⊎ (length d.parts ≡ suc (length (dir d).parts))
parts_cases d = parts_cases_of d.parts

same_at_root : (d : CleanPath) → d.parts ≡ [] → path_eq (dir d) d ≡ true
unfolding path_eq
same_at_root d last = rw last (bool_eq_refl d.rooted)

onward :
    (stat : ℕ → CleanPath → Bool) (i : ℕ) (d : CleanPath) (r : Nearest)
    → stat i d ≡ false
    → ((length d.parts ≡ suc (length (dir d).parts)) → IsNearest stat (suc i) (dir d) r)
    → IsNearest stat i d (if path_eq (dir d) d then nowhere else r)
onward stat i d r here rest = elim (parts_cases d) [
  | inl last ↦ rw (same_at_root d last) (last-IsNearest stat i d last here)
  | inr more ↦
      rw (path_eq_deeper (dir d) d (λ e. omega arith))
        (above-IsNearest stat i d r more here (rest more))
]

nearest-IsNearest :
    (stat : ℕ → CleanPath → Bool) (f i : ℕ) (d : CleanPath)
    → length d.parts < f
    → IsNearest stat i d (nearest stat f i d)
unfolding nearest
nearest-IsNearest stat zero i d enough = absurd (omega arith)
nearest-IsNearest stat (suc f) i d enough = elim (Bool-cases (stat i d)) [
  | inl there ↦ rw there (0, omega arith, refl, at_zero stat i d there, λ j h. absurd (omega arith))
  | inr here ↦ rw here (
      onward stat i d (nearest stat f (suc i) (dir d)) here
        (λ more. nearest-IsNearest stat f (suc i) (dir d) (omega arith)))
]

-- Whatever os.Stat answers at each of its calls, the search of waitForPort ends: with the first
-- directory, among the one it starts from and its ancestors, that os.Stat finds, or with none
-- only if os.Stat finds none of them.
pub nearest_existing_lem :
    (stat : ℕ → CleanPath → Bool) (d : CleanPath) → IsNearest stat 0 d (nearest_existing stat d)
unfolding nearest_existing
nearest_existing_lem stat d = nearest-IsNearest stat (suc (length d.parts)) 0 d (omega arith)
