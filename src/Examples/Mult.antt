-- ===== src/Examples/Mult.antt =====
-- examples/mult_server/main.go: when it multiplies.
use arduino_router.Prelude.{
  ℕ, ◌≡◌, ◌↔◌, refl, Bool-cases, inl, inr, bytes_eq_iff, Bytes, List, [], ◌∷◌, text, bytes_eq,
}
use arduino_router.Value.{Value, nil, float64}
use arduino_router.Examples.{mult, factors, first_factor, second_factor, method_not_found}

abbrev pub IsMultiplied : (ℕ → ℕ → ℕ) → List Value → Value → Type 0
IsMultiplied times params result =
    (a : ℕ) × (b : ℕ) × (params ≡ float64 a ∷ float64 b ∷ []) × (result ≡ float64 (times a b))

module _ (times : ℕ → ℕ → ℕ) where
  second_factor_lem :
      (a : ℕ) (w : Value)
      → ((second_factor times a w).1 ≡ nil)
        ↔ IsMultiplied times (float64 a ∷ w ∷ []) (second_factor times a w).0
  unfolding second_factor
  second_factor_lem a (float64 b) = (λ h. (a, b, refl, refl), λ h. refl)
  second_factor_lem a other = (λ h. cc, λ (x, y, e, r). cc)

  first_factor_lem :
      (v w : Value)
      → ((first_factor times v w).1 ≡ nil)
        ↔ IsMultiplied times (v ∷ w ∷ []) (first_factor times v w).0
  unfolding first_factor
  first_factor_lem (float64 a) w = second_factor_lem a w
  first_factor_lem other w = (λ h. cc, λ (x, y, e, r). cc)

  factors_lem :
      (params : List Value)
      → ((factors times params).1 ≡ nil) ↔ IsMultiplied times params (factors times params).0
  unfolding factors
  factors_lem [] = (λ h. cc, λ (x, y, e, r). cc)
  factors_lem (v ∷ []) = (λ h. cc, λ (x, y, e, r). cc)
  factors_lem (v ∷ w ∷ []) = first_factor_lem v w
  factors_lem (v ∷ w ∷ u ∷ rest) = (λ h. cc, λ (x, y, e, r). cc)

  -- mult_server answers without an error exactly the calls of "mult" with two floats of 64 bits, and
  -- these with the product.
  pub mult_lem :
      (method : Bytes) (params : List Value)
      → ((mult times method params).1 ≡ nil)
        ↔ ((method ≡ text "mult") × IsMultiplied times params (mult times method params).0)
  unfolding mult method_not_found
  mult_lem method params = elim (Bool-cases (bytes_eq method (text "mult"))) [
    | inl e ↦ rw e (
      λ h. ((bytes_eq_iff method (text "mult")).0 e, (factors_lem params).0 h),
      λ (same, h). (factors_lem params).1 h,
    )
    | inr e ↦ rw e (λ h. cc, λ (same, h). cc ((bytes_eq_iff method (text "mult")).1 same, e))
  ]
