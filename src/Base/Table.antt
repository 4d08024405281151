-- ===== src/Base/Table.antt =====
-- A table is the list of its rows, oldest first. A row is selected by a Boolean test, as in the
-- WHERE clause of a statement.
use Prim.Native.Nat.{suc}
use mathlib.Core.Path.{◌≡◌, refl, ap, subst}
use mathlib.Core.Logic.{inl, inr}
use mathlib.Core.Bool.{Bool, true, false, ◌||◌}
use mathlib.Core.List.{List, [], ◌∷◌, ◌++◌}
use mathlib.Core.Option
use mathlib.Core.Option.{Option, none, some}
use native.Mathlib.Omega.{arith}
use ficct_boutique_backend_g.Base.Tests.{if◌then◌else◌, Bool-cases}
use ficct_boutique_backend_g.Base.Lists.{length, All}

module _ {ℓ} {A : Type ℓ} where
  -- SELECT … WHERE, the first row.
  abbrev pub find_where : (A → Bool) → List A → Option A
  find_where p [] = none
  find_where p (x ∷ xs) = if p x then some x else find_where p xs

  -- SELECT … WHERE, every row.
  abbrev pub select_where : (A → Bool) → List A → List A
  select_where p [] = []
  select_where p (x ∷ xs) = let rest = select_where p xs in if p x then x ∷ rest else rest

  -- EXISTS (SELECT … WHERE).
  abbrev pub any_where : (A → Bool) → List A → Bool
  any_where p [] = false
  any_where p (x ∷ xs) = p x || any_where p xs

  -- UPDATE … SET … WHERE.
  abbrev pub update_where : (A → Bool) → (A → A) → List A → List A
  update_where p f [] = []
  update_where p f (x ∷ xs) = (if p x then f x else x) ∷ update_where p f xs

  -- INSERT.
  abbrev pub insert_row : A → List A → List A
  insert_row a xs = xs ++ a ∷ []

  -- ORDER BY: a stable insertion sort, `before x y` for "x must not stand behind y".
  unfoldable pub insert_ordered : (A → A → Bool) → A → List A → List A
  insert_ordered before a [] = a ∷ []
  insert_ordered before a (x ∷ xs) =
      let rest = insert_ordered before a xs in if before a x then a ∷ x ∷ xs else x ∷ rest

  unfoldable pub order_by : (A → A → Bool) → List A → List A
  unfolding insert_ordered
  order_by before [] = []
  order_by before (x ∷ xs) = insert_ordered before x (order_by before xs)

module _ {ℓ} {A : Type ℓ} where
  -- An update that keeps what the test reads is seen through the test.
  pub find_where-update_where :
      (k p : A → Bool) (f : A → A) (xs : List A)
      → ((x : A) → k (f x) ≡ k x)
      → find_where k (update_where p f xs)
        ≡ Option.map (λ x. if p x then f x else x) (find_where k xs)
  find_where-update_where k p f [] h = refl
  find_where-update_where k p f (x ∷ xs) h = ground (arith, h x, find_where-update_where k p f xs h)

  pub any_where-update_where :
      (k p : A → Bool) (f : A → A) (xs : List A)
      → ((x : A) → k (f x) ≡ k x)
      → any_where k (update_where p f xs) ≡ any_where k xs
  any_where-update_where k p f [] h = refl
  any_where-update_where k p f (x ∷ xs) h = ground (arith, h x, any_where-update_where k p f xs h)

  -- No row is touched where none passes the test.
  pub update_where-none :
      (p : A → Bool) (f : A → A) (xs : List A) → any_where p xs ≡ false → update_where p f xs ≡ xs
  update_where-none p f [] h = refl
  update_where-none p f (x ∷ xs) h = ground (arith, update_where-none p f xs)

  pub length-update_where :
      (p : A → Bool) (f : A → A) (xs : List A) → length (update_where p f xs) ≡ length xs
  length-update_where p f [] = refl
  length-update_where p f (x ∷ xs) = ap suc (length-update_where p f xs)

  pub find_where-append :
      (p : A → Bool) (xs ys : List A)
      → find_where p (xs ++ ys) ≡ (if any_where p xs then find_where p xs else find_where p ys)
  find_where-append p [] ys = refl
  find_where-append p (x ∷ xs) ys = ground (arith, find_where-append p xs ys)

  pub any_where-append :
      (p : A → Bool) (xs ys : List A) → any_where p (xs ++ ys) ≡ (any_where p xs || any_where p ys)
  any_where-append p [] ys = refl
  any_where-append p (x ∷ xs) ys = ground (arith, any_where-append p xs ys)

  -- A row that is found passes the test, and proves that there is one.
  pub find_where-passes :
      (p : A → Bool) (xs : List A) (a : A)
      → find_where p xs ≡ some a
      → (p a ≡ true) × (any_where p xs ≡ true)
  find_where-passes p [] a e = ground arith
  find_where-passes p (x ∷ xs) a e = elim (Bool-cases (p x)) [
    | inl hit ↦ ground arith
    | inr miss ↦ ground (arith, find_where-passes p xs a)
  ]

  pub find_where-none_iff_any :
      (p : A → Bool) (xs : List A) → find_where p xs ≡ none → any_where p xs ≡ false
  find_where-none_iff_any p [] e = refl
  find_where-none_iff_any p (x ∷ xs) e = ground (arith, find_where-none_iff_any p xs)

  pub All-update_where {κ} :
      (P : A → Type κ) (p : A → Bool) (f : A → A) (xs : List A)
      → ((x : A) → P x → p x ≡ true → P (f x))
      → All P xs
      → All P (update_where p f xs)
  All-update_where P p f [] h all = tt
  All-update_where P p f (x ∷ xs) h all = (
    elim (Bool-cases (p x)) [ inl hit ↦ rw hit (h x all.0 hit) | inr miss ↦ rw miss all.0 ],
    All-update_where P p f xs h all.1,
  )

  pub All-find_where {κ} :
      (P : A → Type κ) (p : A → Bool) (xs : List A) (a : A)
      → All P xs
      → find_where p xs ≡ some a
      → P a
  All-find_where P p [] a all e = absurd (cc)
  All-find_where P p (x ∷ xs) a all e = elim (Bool-cases (p x)) [
    | inl hit ↦ subst P (ground arith) all.0
    | inr miss ↦ All-find_where P p xs a all.1 (ground arith)
  ]

  -- The first row that an update touches, found again by the update's own test.
  pub find_where-update_self :
      (p : A → Bool) (f : A → A) (xs : List A) (a : A)
      → ((x : A) → p (f x) ≡ p x)
      → find_where p xs ≡ some a
      → find_where p (update_where p f xs) ≡ some (f a)
  find_where-update_self p f [] a k e = absurd (cc)
  find_where-update_self p f (x ∷ xs) a k e = elim (Bool-cases (p x)) [
    | inl hit ↦ ground (arith, k x)
    | inr miss ↦ ground (arith, find_where-update_self p f xs a k)
  ]

  -- A row that is inserted where none passed the test, and passes it, is the one found.
  pub find_where-insert_row :
      (p : A → Bool) (a : A) (xs : List A)
      → find_where p xs ≡ none
      → p a ≡ true
      → find_where p (insert_row a xs) ≡ some a
  find_where-insert_row p a [] e h = rw h refl
  find_where-insert_row p a (x ∷ xs) e h = ground (arith, find_where-insert_row p a xs)
