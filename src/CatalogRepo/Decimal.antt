-- ===== src/CatalogRepo/Decimal.antt =====
-- `itoa` of internal/repository/catalog.go: the decimal digits, as ASCII codes.
use ficct_boutique_backend_g.Base.{
  ℕ, zero, suc, ◌+◌, ◌*◌, ◌/◌, ◌%◌, ◌≤◌, ◌<◌, ◌≡◌, refl, ap, List, [], ◌∷◌, ◌==◌, ◌-◌,
  if◌then◌else◌, arith, All, inl, inr, Bool-cases, ◌∙◌,
}

-- `for i > 0 { digits = append([]byte{byte('0' + i%10)}, digits...); i /= 10 }`, with fuel.
unfoldable pub itoa_loop : ℕ → ℕ → List ℕ → List ℕ
itoa_loop zero i digits = digits
itoa_loop (suc fuel) i digits =
    let rest = itoa_loop fuel (i / 10) ((48 + i % 10) ∷ digits) in if i == 0 then digits else rest

-- `i` rounds are enough, since each divides by ten.
unfoldable pub itoa : ℕ → List ℕ
unfolding itoa_loop
itoa i = if i == 0 then 48 ∷ [] else itoa_loop i i []

-- The number that a text of decimal digits stands for, read from the left.
abbrev pub value_from : ℕ → List ℕ → ℕ
value_from acc [] = acc
value_from acc (c ∷ cs) = value_from (acc * 10 + (c - 48)) cs

abbrev pub IsDigit : ℕ → Type 0
IsDigit c = (48 ≤ c) × (c < 58)

-- The digits that the loop puts in front make up `i`, whatever fuel above `i` is given.
loop_value :
    (fuel i : ℕ) (digits : List ℕ)
    → i ≤ fuel
    → value_from 0 (itoa_loop fuel i digits) ≡ value_from i digits
unfolding itoa_loop
loop_value zero i digits h = ground arith
loop_value (suc fuel) i digits h = elim (Bool-cases (i == 0)) [
  | inl done ↦ ground arith
  | inr more ↦ rw more (
      loop_value fuel (i / 10) ((48 + i % 10) ∷ digits) (ground arith)
      ∙ ap (λ (t : ℕ). value_from t digits) (omega arith))
]

loop_digits :
    (fuel i : ℕ) (digits : List ℕ) → All IsDigit digits → All IsDigit (itoa_loop fuel i digits)
unfolding itoa_loop
loop_digits zero i digits h = h
loop_digits (suc fuel) i digits h = elim (Bool-cases (i == 0)) [
  | inl done ↦ rw done h
  | inr more ↦ rw more (loop_digits fuel (i / 10) ((48 + i % 10) ∷ digits) (omega arith, h))
]

-- The first digit is not 0.
abbrev pub NoLeadingZero : List ℕ → Type 0
NoLeadingZero [] = ⊥
NoLeadingZero (c ∷ cs) = 48 < c

loop_zero : (fuel i : ℕ) (digits : List ℕ) → i ≡ 0 → itoa_loop fuel i digits ≡ digits
unfolding itoa_loop
loop_zero zero i digits h = refl
loop_zero (suc fuel) i digits h = ground arith

loop_head :
    (fuel i : ℕ) (digits : List ℕ) → i ≤ fuel → 0 < i → NoLeadingZero (itoa_loop fuel i digits)
unfolding itoa_loop
loop_head zero i digits h p = absurd (omega arith)
loop_head (suc fuel) i digits h p = elim (Bool-cases (i == 0)) [
  | inl done ↦ absurd (ground arith)
  | inr more ↦ rw more (elim (Bool-cases (i / 10 == 0)) [
    | inl last ↦ rw (loop_zero fuel (i / 10) ((48 + i % 10) ∷ digits) (ground arith)) (ground arith)
    | inr next ↦ loop_head fuel (i / 10) ((48 + i % 10) ∷ digits) (ground arith) (ground arith)
  ])
]

-- The text of a number is made of decimal digits, starts with 0 only if the number is 0, and reads
-- back as that number.
pub itoa_roundtrip :
    (i : ℕ) → (value_from 0 (itoa i) ≡ i) × All IsDigit (itoa i) × (0 < i → NoLeadingZero (itoa i))
unfolding itoa
itoa_roundtrip i = elim (Bool-cases (i == 0)) [
  | inl zero_i ↦ rw zero_i (ground arith, (omega arith, tt), λ p. absurd (ground arith))
  | inr more ↦
      rw more
        (loop_value i i [] (omega arith), loop_digits i i [] tt, loop_head i i [] (omega arith))
]
