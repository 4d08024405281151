-- ===== src/Base/Order.antt =====
-- Sorted and shortened lists: what ORDER BY and LIMIT keep of a table.
use Prim.Native.Nat.{ℕ, zero, suc, ◌+◌, ◌≤◌}
use mathlib.Core.Path.{◌≡◌, refl, sym, ap, ◌∙◌}
use mathlib.Core.Bool.{Bool, true, false, not, ◌&&◌, ◌||◌}
use mathlib.Core.List.{List, [], ◌∷◌, ◌++◌}
use native.Mathlib.Omega.{arith}
use ficct_boutique_backend_g.Base.Lists.{length, take, drop, All, length-take}
use ficct_boutique_backend_g.Base.Table.{select_where, any_where, insert_ordered, order_by}

plus_suc : (n m : ℕ) → suc n + m ≡ suc (n + m)
plus_suc n m = omega arith

plus_zero : (m : ℕ) → 0 + m ≡ m
plus_zero m = omega arith

module _ {ℓ} {A : Type ℓ} where
  any-insert_ordered :
      (p : A → Bool) (before : A → A → Bool) (a : A) (xs : List A)
      → any_where p (insert_ordered before a xs) ≡ (p a || any_where p xs)
  unfolding insert_ordered
  any-insert_ordered p before a [] = refl
  any-insert_ordered p before a (x ∷ xs) = ground (arith, any-insert_ordered p before a xs)

  -- Sorting neither adds nor loses rows that pass a test.
  pub any-order_by :
      (p : A → Bool) (before : A → A → Bool) (xs : List A)
      → any_where p (order_by before xs) ≡ any_where p xs
  unfolding order_by
  any-order_by p before [] = refl
  any-order_by p before (x ∷ xs) =
      any-insert_ordered p before x (order_by before xs)
      ∙ ap (λ b. p x || b) (any-order_by p before xs)

  length-insert_ordered :
      (before : A → A → Bool) (a : A) (xs : List A)
      → length (insert_ordered before a xs) ≡ suc (length xs)
  unfolding insert_ordered
  length-insert_ordered before a [] = refl
  length-insert_ordered before a (x ∷ xs) = ground (arith, length-insert_ordered before a xs)

  pub length-order_by :
      (before : A → A → Bool) (xs : List A) → length (order_by before xs) ≡ length xs
  unfolding order_by
  length-order_by before [] = refl
  length-order_by before (x ∷ xs) =
      length-insert_ordered before x (order_by before xs) ∙ ap suc (length-order_by before xs)

  pub any-take :
      (p : A → Bool) (n : ℕ) (xs : List A)
      → any_where p xs ≡ false
      → any_where p (take n xs) ≡ false
  any-take p zero xs h = refl
  any-take p (suc n) [] h = refl
  any-take p (suc n) (x ∷ xs) h = ground (arith, any-take p n xs)

  pub any-drop :
      (p : A → Bool) (n : ℕ) (xs : List A)
      → any_where p xs ≡ false
      → any_where p (drop n xs) ≡ false
  any-drop p zero xs h = h
  any-drop p (suc n) [] h = refl
  any-drop p (suc n) (x ∷ xs) h = ground (arith, any-drop p n xs)

  take-nil : (n : ℕ) → take {A = A} n [] ≡ []
  take-nil zero = refl
  take-nil (suc n) = refl

  drop-nil : (n : ℕ) → drop {A = A} n [] ≡ []
  drop-nil zero = refl
  drop-nil (suc n) = refl

  take-append : (n m : ℕ) (xs : List A) → take n xs ++ take m (drop n xs) ≡ take (n + m) xs
  take-append zero m xs = ap (λ k. take k xs) (sym (plus_zero m))
  take-append (suc n) m [] = take-nil m ∙ sym (take-nil (suc n + m))
  take-append (suc n) m (x ∷ xs) =
      ap (λ r. x ∷ r) (take-append n m xs) ∙ ap (λ k. take k (x ∷ xs)) (sym (plus_suc n m))

  drop-plus : (k n : ℕ) (xs : List A) → drop (k + n) xs ≡ drop n (drop k xs)
  drop-plus zero n xs = ap (λ j. drop j xs) (plus_zero n)
  drop-plus (suc k) n [] = drop-nil (suc k + n) ∙ sym (drop-nil n)
  drop-plus (suc k) n (x ∷ xs) = ap (λ j. drop j (x ∷ xs)) (plus_suc k n) ∙ drop-plus k n xs

  -- Two pages that follow each other are one longer page.
  pub take-pages :
      (n m k : ℕ) (xs : List A)
      → take n (drop k xs) ++ take m (drop (k + n) xs) ≡ take (n + m) (drop k xs)
  take-pages n m k xs =
      ap (λ r. take n (drop k xs) ++ take m r) (drop-plus k n xs) ∙ take-append n m (drop k xs)

  pub length-take_le : (n : ℕ) (xs : List A) → length (take n xs) ≤ n
  length-take_le n xs = omega (arith, length-take n xs)

  pub take-all : (n : ℕ) (xs : List A) → length xs ≤ n → take n xs ≡ xs
  take-all zero [] h = refl
  take-all zero (x ∷ xs) h = absurd (omega arith)
  take-all (suc n) [] h = refl
  take-all (suc n) (x ∷ xs) h = ap (λ r. x ∷ r) (take-all n xs (omega arith))

  pub any-select_where :
      (p q : A → Bool) (xs : List A)
      → any_where p (select_where q xs) ≡ any_where (λ x. p x && q x) xs
  any-select_where p q [] = refl
  any-select_where p q (x ∷ xs) = ground (arith, any-select_where p q xs)

  pub All-not_any :
      (p : A → Bool) (xs : List A)
      → any_where (λ x. not (p x)) xs ≡ false
      → All (λ x. p x ≡ true) xs
  All-not_any p [] h = tt
  All-not_any p (x ∷ xs) h = (ground arith, All-not_any p xs (ground arith))

  pub none_both : (p : A → Bool) (xs : List A) → any_where (λ x. not (p x) && p x) xs ≡ false
  none_both p [] = refl
  none_both p (x ∷ xs) = ground (arith, none_both p xs)
