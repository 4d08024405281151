-- ===== src/Base/Sorted.antt =====
-- ORDER BY by a total order gives a list in order, which selections and beginnings of it keep.
use mathlib.Core.Path.{◌≡◌, refl, sym, ap, ◌∙◌}
use mathlib.Core.Logic.{inl, inr}
use mathlib.Core.Bool.{Bool, true, false}
use mathlib.Core.List.{List, [], ◌∷◌}
use Prim.Native.Nat.{ℕ, zero, suc}
use ficct_boutique_backend_g.Base.Tests.{if◌then◌else◌, Bool-cases}
use ficct_boutique_backend_g.Base.Lists.{take, All}
use ficct_boutique_backend_g.Base.Table.{select_where, insert_ordered, order_by}

module _ {ℓ} {A : Type ℓ} where
  pub All-select_where {κ} :
      (P : A → Type κ) (p : A → Bool) (xs : List A) → All P xs → All P (select_where p xs)
  All-select_where P p [] h = tt
  All-select_where P p (x ∷ xs) h = elim (Bool-cases (p x)) [
    | inl hit ↦ rw hit (h.0, All-select_where P p xs h.1)
    | inr miss ↦ rw miss (All-select_where P p xs h.1)
  ]

  pub All-take {κ} : (P : A → Type κ) (n : ℕ) (xs : List A) → All P xs → All P (take n xs)
  All-take P zero xs h = tt
  All-take P (suc n) [] h = tt
  All-take P (suc n) (x ∷ xs) h = (h.0, All-take P n xs h.1)

module _ {ℓ} {A : Type ℓ} (before : A → A → Bool) where
  -- Each element stands before all that follow it.
  abbrev pub IsOrdered : List A → Type 0
  IsOrdered [] = Unit
  IsOrdered (x ∷ xs) = All (λ y. before x y ≡ true) xs × IsOrdered xs

  All-before :
      (a x : A) (xs : List A)
      → ((x y z : A) → before x y ≡ true → before y z ≡ true → before x z ≡ true)
      → before a x ≡ true
      → All (λ y. before x y ≡ true) xs
      → All (λ y. before a y ≡ true) xs
  All-before a x [] trans h all = tt
  All-before a x (y ∷ xs) trans h all = (trans a x y h all.0, All-before a x xs trans h all.1)

  All-insert_ordered :
      (x a : A) (xs : List A)
      → before x a ≡ true
      → All (λ y. before x y ≡ true) xs
      → All (λ y. before x y ≡ true) (insert_ordered before a xs)
  unfolding insert_ordered
  All-insert_ordered x a [] h all = (h, tt)
  All-insert_ordered x a (y ∷ xs) h all = elim (Bool-cases (before a y)) [
    | inl hit ↦ rw hit (h, all)
    | inr miss ↦ rw miss (all.0, All-insert_ordered x a xs h all.1)
  ]

  module _ (total : (x y : A) → before x y ≡ false → before y x ≡ true)
      (trans : (x y z : A) → before x y ≡ true → before y z ≡ true → before x z ≡ true) where
    insert_ordered-IsOrdered :
        (a : A) (xs : List A) → IsOrdered xs → IsOrdered (insert_ordered before a xs)
    unfolding insert_ordered
    insert_ordered-IsOrdered a [] h = (tt, tt)
    insert_ordered-IsOrdered a (x ∷ xs) h = elim (Bool-cases (before a x)) [
      | inl hit ↦ rw hit ((hit, All-before a x xs trans hit h.0), h)
      | inr miss ↦
          rw miss
            (All-insert_ordered x a xs (total a x miss) h.0, insert_ordered-IsOrdered a xs h.1)
    ]

    pub order_by-IsOrdered : (xs : List A) → IsOrdered (order_by before xs)
    unfolding order_by
    order_by-IsOrdered [] = tt
    order_by-IsOrdered (x ∷ xs) =
        insert_ordered-IsOrdered x (order_by before xs) (order_by-IsOrdered xs)

  pub select_where-IsOrdered :
      (p : A → Bool) (xs : List A) → IsOrdered xs → IsOrdered (select_where p xs)
  select_where-IsOrdered p [] h = tt
  select_where-IsOrdered p (x ∷ xs) h = elim (Bool-cases (p x)) [
    | inl hit ↦ rw hit (All-select_where _ p xs h.0, select_where-IsOrdered p xs h.1)
    | inr miss ↦ rw miss (select_where-IsOrdered p xs h.1)
  ]

  pub take-IsOrdered : (n : ℕ) (xs : List A) → IsOrdered xs → IsOrdered (take n xs)
  take-IsOrdered zero xs h = tt
  take-IsOrdered (suc n) [] h = tt
  take-IsOrdered (suc n) (x ∷ xs) h = (All-take _ n xs h.0, take-IsOrdered n xs h.1)

module _ {ℓ κ} {A : Type ℓ} (P : A → Type κ) (before : A → A → Bool) where
  insert_ordered-All : (a : A) (xs : List A) → P a → All P xs → All P (insert_ordered before a xs)
  unfolding insert_ordered
  insert_ordered-All a [] h all = (h, tt)
  insert_ordered-All a (x ∷ xs) h all = elim (Bool-cases (before a x)) [
    | inl hit ↦ rw hit (h, all)
    | inr miss ↦ rw miss (all.0, insert_ordered-All a xs h all.1)
  ]

  -- Sorting keeps what holds of every row.
  pub order_by-All : (xs : List A) → All P xs → All P (order_by before xs)
  unfolding order_by
  order_by-All [] all = tt
  order_by-All (x ∷ xs) all =
      insert_ordered-All x (order_by before xs) all.0 (order_by-All xs all.1)

module _ {ℓ} {A : Type ℓ} (p : A → Bool) (before narrow : A → A → Bool)
    (trans : (x y z : A) → before x y ≡ true → before y z ≡ true → before x z ≡ true)
    (total : (x y : A) → before x y ≡ false → before y x ≡ true)
    (agree : (x y : A) → p x ≡ true → p y ≡ true → before x y ≡ narrow x y) where
  -- A row that stands before all selected rows is the first of them.
  insert-first :
      (a : A) (xs : List A)
      → p a ≡ true
      → All (λ y. before a y ≡ true) xs
      → insert_ordered narrow a (select_where p xs) ≡ a ∷ select_where p xs
  unfolding insert_ordered
  insert-first a [] h all = refl
  insert-first a (x ∷ xs) h all = elim (Bool-cases (p x)) [
    | inl hit ↦ rw hit (rw (sym (agree a x h hit) ∙ all.0) refl)
    | inr miss ↦ rw miss (insert-first a xs h all.1)
  ]

  select-insert :
      (a : A) (xs : List A)
      → IsOrdered before xs
      → select_where p (insert_ordered before a xs)
        ≡ (if p a then insert_ordered narrow a (select_where p xs) else select_where p xs)
  unfolding insert_ordered
  select-insert a [] ord = refl
  select-insert a (x ∷ xs) ord = elim (Bool-cases (before a x)) [
    | inl first ↦ rw first (elim (Bool-cases (p a)) [
      | inr miss ↦ rw miss refl
      | inl hit ↦
          rw hit
            (sym (insert-first a (x ∷ xs) hit (first, All-before before a x xs trans first ord.0)))
    ])
    | inr later ↦ rw later (elim (Bool-cases (p x)) [
      | inr miss ↦ rw miss (select-insert a xs ord.1)
      | inl hit ↦ rw hit (elim (Bool-cases (p a)) [
        | inr out ↦ rw out (
            ap (λ l. x ∷ l)
              (select-insert a xs ord.1
                ∙ ap
                    (λ b.
                      if b then insert_ordered narrow a (select_where p xs) else select_where p xs)
                    out))
        | inl kept ↦ rw kept (
            rw (sym (agree a x kept hit) ∙ later) (
              ap (λ l. x ∷ l)
                (select-insert a xs ord.1
                  ∙ ap
                      (λ b.
                        if b
                        then insert_ordered narrow a (select_where p xs)
                        else select_where p xs)
                      kept)))
      ])
    ])
  ]

  -- A selection of sorted rows is the selection, sorted by any order that agrees on what is selected.
  pub select-order_by :
      (xs : List A) → select_where p (order_by before xs) ≡ order_by narrow (select_where p xs)
  unfolding order_by
  select-order_by [] = refl
  select-order_by (x ∷ xs) =
      select-insert x (order_by before xs) (order_by-IsOrdered before total trans xs)
      ∙ (ap (λ l. if p x then insert_ordered narrow x l else l) (select-order_by xs) ∙ both (p x))
    where
      both :
          (b : Bool)
          → (if b
              then insert_ordered narrow x (order_by narrow (select_where p xs))
              else order_by narrow (select_where p xs))
            ≡ order_by narrow (if b then x ∷ select_where p xs else select_where p xs)
      both true = refl
      both false = refl
