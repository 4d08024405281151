-- ===== src/Base/Group.antt =====
-- Rows grouped by a key: `out[key] = append(out[key], row)` for each row, and the distinct keys.
use Prim.Native.Nat.{ℕ, ◌+◌}
use mathlib.Core.Path.{◌≡◌, refl, sym, ap, ◌∙◌}
use mathlib.Core.Logic.{inl, inr}
use mathlib.Core.Bool.{Bool, true, false, not}
use mathlib.Core.List.{List, [], ◌∷◌, ◌++◌, map}
use native.Mathlib.Omega.{arith}
use ficct_boutique_backend_g.Base.Tests.{if◌then◌else◌, Bool-cases, ◌==◌, leb, ltb}
use ficct_boutique_backend_g.Base.Lists.{length, All, append_nil, append_row}
use ficct_boutique_backend_g.Base.Table.{select_where, any_where}
use ficct_boutique_backend_g.Base.Sorted.{All-select_where, IsOrdered}

module _ {ℓ} {A : Type ℓ} where
  unfoldable pub group_from : (A → ℕ) → (ℕ → List A) → List A → ℕ → List A
  group_from key groups [] = groups
  group_from key groups (x ∷ xs) =
      group_from key (λ k. if key x == k then groups k ++ x ∷ [] else groups k) xs

  unfoldable pub group_by : (A → ℕ) → List A → ℕ → List A
  unfolding group_from
  group_by key rows = group_from key (λ k. []) rows

  group_from-select :
      (key : A → ℕ) (groups : ℕ → List A) (rows : List A) (k : ℕ)
      → group_from key groups rows k ≡ groups k ++ select_where (λ x. key x == k) rows
  unfolding group_from
  group_from-select key groups [] k = sym (append_nil (groups k))
  group_from-select key groups (x ∷ xs) k =
      group_from-select key (λ k. if key x == k then groups k ++ x ∷ [] else groups k) xs k
      ∙ onto (key x == k)
    where
      onto :
          (b : Bool)
          → (if b then groups k ++ x ∷ [] else groups k) ++ select_where (λ x. key x == k) xs
            ≡ groups k
              ++ (if b
                  then x ∷ select_where (λ x. key x == k) xs
                  else select_where (λ x. key x == k) xs)
      onto true = append_row (groups k) x (select_where (λ x. key x == k) xs)
      onto false = refl

  -- A group is the rows with its key, in their order.
  pub group_by-select :
      (key : A → ℕ) (rows : List A) (k : ℕ)
      → group_by key rows k ≡ select_where (λ x. key x == k) rows
  unfolding group_by
  group_by-select key rows k = group_from-select key (λ k. []) rows k

-- The values of a list, each at its first place.
unfoldable pub distinct : List ℕ → List ℕ
distinct [] = []
distinct (x ∷ xs) = x ∷ select_where (λ y. not (y == x)) (distinct xs)

pub All-distinct {κ} : (P : ℕ → Type κ) (xs : List ℕ) → All P xs → All P (distinct xs)
unfolding distinct
All-distinct P [] h = tt
All-distinct P (x ∷ xs) h =
    (h.0, All-select_where P (λ y. not (y == x)) (distinct xs) (All-distinct P xs h.1))

All-above :
    (x : ℕ) (ys : List ℕ)
    → All (λ y. leb x y ≡ true) ys
    → All (λ y. ltb x y ≡ true) (select_where (λ y. not (y == x)) ys)
All-above x [] h = tt
All-above x (y ∷ ys) h = elim (Bool-cases (y == x)) [
  | inl same ↦ rw same (All-above x ys h.1)
  | inr other ↦ rw other (above x y h.0 other, All-above x ys h.1)
]
  where
    above : (x y : ℕ) → leb x y ≡ true → (y == x) ≡ false → ltb x y ≡ true
    above x y h k = ground arith

select_where-keeps :
    (p : ℕ → Bool) (xs : List ℕ) → IsOrdered ltb xs → IsOrdered ltb (select_where p xs)
select_where-keeps p [] h = tt
select_where-keeps p (x ∷ xs) h = elim (Bool-cases (p x)) [
  | inl hit ↦ rw hit (All-select_where _ p xs h.0, select_where-keeps p xs h.1)
  | inr miss ↦ rw miss (select_where-keeps p xs h.1)
]

-- The distinct values of a list in order rise.
pub distinct-IsOrdered : (xs : List ℕ) → IsOrdered leb xs → IsOrdered ltb (distinct xs)
unfolding distinct
distinct-IsOrdered [] h = tt
distinct-IsOrdered (x ∷ xs) h = (
  All-above x (distinct xs) (All-distinct _ xs h.0),
  select_where-keeps (λ y. not (y == x)) (distinct xs) (distinct-IsOrdered xs h.1),
)

abbrev occurrences : ℕ → List ℕ → ℕ
occurrences k [] = 0
occurrences k (x ∷ xs) = (if k == x then 1 else 0) + occurrences k xs

occurrences-other :
    (k x : ℕ) (ys : List ℕ)
    → occurrences k (select_where (λ y. not (y == x)) ys) ≡ (if k == x then 0 else occurrences k ys)
occurrences-other k x [] = ground arith
occurrences-other k x (y ∷ ys) = ground (arith, occurrences-other k x ys)

-- A value that occurs in a list occurs once among its distinct values.
occurrences-distinct :
    (k : ℕ) (xs : List ℕ)
    → occurrences k (distinct xs) ≡ (if any_where (λ x. k == x) xs then 1 else 0)
unfolding distinct
occurrences-distinct k [] = refl
occurrences-distinct k (x ∷ xs) =
    ground (arith, occurrences-other k x (distinct xs), occurrences-distinct k xs)

module _ {ℓ} {A : Type ℓ} (key : A → ℕ) where
  -- The number of rows under each of some keys, added up.
  abbrev pub sum_counts : List ℕ → List A → ℕ
  sum_counts [] rows = 0
  sum_counts (k ∷ ks) rows = length (select_where (λ x. key x == k) rows) + sum_counts ks rows

  sum_counts-row :
      (ks : List ℕ) (x : A) (rows : List A)
      → sum_counts ks (x ∷ rows) ≡ occurrences (key x) ks + sum_counts ks rows
  sum_counts-row [] x rows = omega arith
  sum_counts-row (k ∷ ks) x rows = ground (arith, sum_counts-row ks x rows)

  sum_counts-none : (ks : List ℕ) → sum_counts ks [] ≡ 0
  sum_counts-none [] = refl
  sum_counts-none (k ∷ ks) = omega (arith, sum_counts-none ks)

  -- Under keys that each row's key is among once, each row counts once.
  sum_counts-All :
      (ks : List ℕ) (rows : List A)
      → All (λ x. occurrences (key x) ks ≡ 1) rows
      → sum_counts ks rows ≡ length rows
  sum_counts-All ks [] h = sum_counts-none ks
  sum_counts-All ks (x ∷ rows) h =
      omega (arith, sum_counts-row ks x rows, sum_counts-All ks rows h.1, h.0)

  keys_among :
      (rows : List A) (xs : List ℕ)
      → ((k : ℕ)
          → any_where (λ x. k == x) (map key rows) ≡ true
          → any_where (λ x. k == x) xs ≡ true)
      → All (λ x. occurrences (key x) (distinct xs) ≡ 1) rows
  keys_among [] xs h = tt
  keys_among (x ∷ rows) xs h = (
    occurrences-distinct (key x) xs ∙ ap (λ b. if b then 1 else 0) (h (key x) (ground arith)),
    keys_among rows xs (λ k e. h k (ground arith)),
  )

  -- The groups of all keys of some rows hold each row once.
  pub sum_counts-distinct :
      (rows : List A) (xs : List ℕ)
      → ((k : ℕ)
          → any_where (λ x. k == x) (map key rows) ≡ true
          → any_where (λ x. k == x) xs ≡ true)
      → sum_counts (distinct xs) rows ≡ length rows
  sum_counts-distinct rows xs h = sum_counts-All (distinct xs) rows (keys_among rows xs h)

any-other :
    (k x : ℕ) (ys : List ℕ)
    → (x == k) ≡ false
    → any_where (λ y. y == k) (select_where (λ y. not (y == x)) ys) ≡ any_where (λ y. y == k) ys
any-other k x [] h = refl
any-other k x (y ∷ ys) h = ground (arith, any-other k x ys)

-- The distinct values are the values.
pub any-distinct :
    (k : ℕ) (xs : List ℕ) → any_where (λ y. y == k) (distinct xs) ≡ any_where (λ y. y == k) xs
unfolding distinct
any-distinct k [] = refl
any-distinct k (x ∷ xs) = elim (Bool-cases (x == k)) [
  | inl hit ↦ rw hit refl
  | inr miss ↦ rw miss (any-other k x (distinct xs) miss ∙ any-distinct k xs)
]
