-- ===== src/Dict/Counting.antt =====
-- The keys of a map that pass a test, counted: what a search for a free key needs to end.
use arduino_router.Prelude.{
  ℕ, suc, ◌≤◌, ◌≡◌, Bool, true, false, List, [], ◌∷◌, arith, Eq, if◌then◌else◌, length, is_some,
  Bool-cases, inl, inr, ◌<◌,
}
use arduino_router.Dict.{Dict, lookup, lookup_in, size}

abbrev pub count_in {ℓ κ} : {K : Type ℓ} {V : Type κ} → (K → Bool) → List (K × V) → ℕ
count_in p [] = 0
count_in p ((k, v) ∷ l) = if p k then suc (count_in p l) else count_in p l

abbrev pub count {ℓ κ} : {K : Type ℓ} {V : Type κ} → (K → Bool) → Dict K V → ℕ
count p m = count_in p m.entries

count_in_le {ℓ κ} :
    {K : Type ℓ} {V : Type κ} (p : K → Bool) (l : List (K × V)) → count_in p l ≤ length l
count_in_le p [] = ground arith
count_in_le p ((k, v) ∷ l) = let rest = count_in_le p l in ground arith

pub count_le {ℓ κ} :
    {K : Type ℓ} {V : Type κ} ⦃e : Eq K⦄ (p : K → Bool) (m : Dict K V) → count p m ≤ size m
unfolding size
count_le p m = count_in_le p m.entries

module _ {ℓ κ} {K : Type ℓ} {V : Type κ} ⦃e : Eq K⦄ (p q : K → Bool) where
  count_in_mono :
      (sub : (k : K) → q k ≡ true → p k ≡ true) (l : List (K × V)) → count_in q l ≤ count_in p l
  count_in_mono sub [] = ground arith
  count_in_mono sub ((k, v) ∷ l) = let rest = count_in_mono sub l in let s = sub k in ground arith

  -- A key that passes only the wider test, and is there, counts.
  count_in_more :
      (sub : (k : K) → q k ≡ true → p k ≡ true)
      → (j : K) → p j ≡ true
      → q j ≡ false
      → (l : List (K × V)) → is_some (lookup_in j l) ≡ true
      → count_in q l < count_in p l
  unfolding lookup_in
  count_in_more sub j pj qj [] h = ground arith
  count_in_more sub j pj qj ((k, v) ∷ l) h = elim (Bool-cases (e.beq k j)) [
    | inl same ↦
        let mono = count_in_mono sub l in
        let path = (e.beq_iff k j).0 same in
        let pk : p k ≡ true = rw path pj in let qk : q k ≡ false = rw path qj in ground arith
    | inr other ↦ let s = sub k in let rest = count_in_more sub j pj qj l in ground arith
  ]

  pub count_mono : (sub : (k : K) → q k ≡ true → p k ≡ true) (m : Dict K V) → count q m ≤ count p m
  count_mono sub m = count_in_mono sub m.entries

  pub count_more :
      (sub : (k : K) → q k ≡ true → p k ≡ true)
      → (j : K) → p j ≡ true
      → q j ≡ false
      → (m : Dict K V) → is_some (lookup j m) ≡ true
      → count q m < count p m
  unfolding lookup
  count_more sub j pj qj m h = count_in_more sub j pj qj m.entries h
