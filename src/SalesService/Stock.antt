-- ===== src/SalesService/Stock.antt =====
-- What confirming a sale takes out of the stock: internal/service/sales_service.go, the loop of
-- ConfirmSale over the items.
use mathlib.Core.Option
use ficct_boutique_backend_g.Base.{
  ◌≡◌, refl, ◌∙◌, sym, ap, subst, true, Option, none, some, List, [], ◌∷◌, ◌&&◌, ◌==◌, inl, inr,
  if◌then◌else◌, any_where, update_where, arith, Bool-cases, not,
}
use ficct_boutique_backend_g.Base.Int.{ℤ, pos, ◌+ℤ◌, ◌-ℤ◌, ◌≤ℤ◌, leb_ℤ, int_laws, fits_int32}
use ficct_boutique_backend_g.Models.{Uuid, SaleItem}
use ficct_boutique_backend_g.Store.{Db, Error, Env, Outcome, ok, wrap, after}
use ficct_boutique_backend_g.Store.Laws.{>>=-eq-ok, wrap-eq-ok, fail_if-eq-ok}
use ficct_boutique_backend_g.InventoryRepo.{has_stock, take_stock, leaves_int32, decrement_for_sale}
use ficct_boutique_backend_g.InventoryRepo.Stock.{
  stock, HasUniqueKeys, any-has_stock, stock-take_stock,
}
use ficct_boutique_backend_g.InventoryRepo.Sound.{IsSound, decrement_for_sale-IsSound}
use ficct_boutique_backend_g.SalesService.{decrement_items}

-- The units of a variant among some items.
abbrev pub sold : Uuid → List SaleItem → ℤ
sold v [] = pos 0
sold v (it ∷ items) = if v == it.variant_id then it.quantity +ℤ sold v items else sold v items

-- The units that a sale at `branch` takes from a variant at a branch.
abbrev pub sold_at : Uuid → Uuid → Uuid → List SaleItem → ℤ
sold_at branch v b items = if b == branch then sold v items else pos 0

-- `stock` after an amount is gone.
abbrev pub less : Option ℤ → ℤ → Option ℤ
less o q = Option.map (λ s. s -ℤ q) o

-- A decrement that went well met a row with enough stock, and changed the inventory alone.
pub decrement_for_sale-eq-ok :
    (env : Env) (v b : Uuid) (q : ℤ) (db w : Db)
    → decrement_for_sale env v b q db ≡ ok tt w
    → (any_where (has_stock v b q) db.inventory ≡ true)
      × (w ≡ record db {
        inventory = update_where (has_stock v b q) (take_stock env q) db.inventory;
      })
unfolding decrement_for_sale
decrement_for_sale-eq-ok env v b q db w h0 =
    let (_, h1) = fail_if-eq-ok (not (fits_int32 q)) Error.out_of_range _ db h0 in
    let (_, h) =
      fail_if-eq-ok (any_where (leaves_int32 v b q) db.inventory) Error.out_of_range _ db h1 in
    elim (Bool-cases (any_where (has_stock v b q) db.inventory)) [
      | inl enough ↦ ground arith
      | inr short ↦ absurd (ground arith)
    ]

-ℤ_zero : (s : ℤ) → s -ℤ pos 0 ≡ s
-ℤ_zero s = omega int_laws

pub less_zero : (o : Option ℤ) → less o (pos 0) ≡ o
less_zero none = refl
less_zero (some s) = ap some (-ℤ_zero s)

-- Only the row with the key loses stock.
less-at :
    (v b v' b' : Uuid) (q : ℤ) (o : Option ℤ)
    → (v' ≡ v → b' ≡ b → (old : ℤ) × (o ≡ some old) × (q ≤ℤ old))
    → Option.map (λ s. if v' == v && b' == b && leb_ℤ q s then s -ℤ q else s) o
      ≡ less o (if v' == v && b' == b then q else pos 0)
less-at v b v' b' q none enough = refl
less-at v b v' b' q (some s) enough = elim (Bool-cases (v' == v && b' == b)) [
  | inl hit ↦ let (old, e, le) = enough (ground arith) (ground arith) in ground arith
  | inr miss ↦ ground (arith, -ℤ_zero s)
]

-- The stock of every variant at every branch after a decrement that went well.
pub decrement-stock :
    (env : Env) (v b v' b' : Uuid) (q : ℤ) (db w : Db)
    → HasUniqueKeys db.inventory
    → decrement_for_sale env v b q db ≡ ok tt w
    → stock v' b' w.inventory
      ≡ less (stock v' b' db.inventory) (if v' == v && b' == b then q else pos 0)
decrement-stock env v b v' b' q db w u h =
    let (enough, e) = decrement_for_sale-eq-ok env v b q db w h in
    ap (λ (d : Db). stock v' b' d.inventory) e
    ∙ stock-take_stock env v b v' b' q db.inventory
    ∙ less-at v b v' b' q (stock v' b' db.inventory)
        λ p r. rw (p, r) (any-has_stock v b q db.inventory u enough)

less-less : (o : Option ℤ) (a b c : ℤ) → a +ℤ b ≡ c → less (less o a) b ≡ less o c
less-less none a b c h = refl
less-less (some s) a b c h = ap some (sub_sub s a b c h)
  where
    sub_sub : (s a b c : ℤ) → a +ℤ b ≡ c → s -ℤ a -ℤ b ≡ s -ℤ c
    sub_sub s a b c h = rw (← h) (omega int_laws)

-- One item and then the rest, seen from a variant at a branch.
sold_at-cons :
    (branch v b : Uuid) (it : SaleItem) (items : List SaleItem)
    → (if v == it.variant_id && b == branch then it.quantity else pos 0) +ℤ sold_at branch v b items
      ≡ sold_at branch v b (it ∷ items)
sold_at-cons branch v b it items = elim (Bool-cases (b == branch)) [
  | inl here ↦ elim (Bool-cases (v == it.variant_id)) [
    | inl same ↦ rw (here, same) refl
    | inr other ↦ rw (here, other) (omega int_laws)
  ]
  | inr there ↦ elim (Bool-cases (v == it.variant_id)) [
    | inl same ↦ rw (there, same) (omega int_laws)
    | inr other ↦ rw (there, other) (omega int_laws)
  ]
]

-- A loop that went well decremented for its first item, and then for the others.
decrement_items-cons :
    (env : Env) (branch : Uuid) (it : SaleItem) (items : List SaleItem) (db w : Db)
    → decrement_items env branch (it ∷ items) db ≡ ok tt w
    → (u : Db) × (decrement_for_sale env it.variant_id branch it.quantity db ≡ ok tt u)
      × (decrement_items env branch items u ≡ ok tt w)
unfolding decrement_items
decrement_items-cons env branch it items db w h =
    let m = decrement_for_sale env it.variant_id branch it.quantity in
    let f = Error.of_decrement it.variant_id in
    let (_, u, first, rest) = >>=-eq-ok (wrap f m) (λ _. decrement_items env branch items) db h in
    (u, wrap-eq-ok f m db first, rest)

pub decrement_items-IsSound :
    (env : Env) (branch : Uuid) (items : List SaleItem) (db w : Db)
    → IsSound db.inventory
    → decrement_items env branch items db ≡ ok tt w
    → IsSound w.inventory
unfolding decrement_items
decrement_items-IsSound env branch [] db w s h = subst (λ o. IsSound (after o).inventory) h s
decrement_items-IsSound env branch (it ∷ items) db w s h =
    let (u, done, rest) = decrement_items-cons env branch it items db w h in
    decrement_items-IsSound env branch items u w
      (subst (λ o. IsSound (after o).inventory) done
        (decrement_for_sale-IsSound env it.variant_id branch it.quantity db s))
      rest

sold_at-nil : (branch v b : Uuid) → sold_at branch v b [] ≡ pos 0
sold_at-nil branch v b = ground arith

-- The loop takes from every variant, at the branch of the sale, the units of it among the items,
-- and nothing from any other branch.
pub decrement_items-stock :
    (env : Env) (branch : Uuid) (items : List SaleItem) (v b : Uuid) (db w : Db)
    → IsSound db.inventory
    → decrement_items env branch items db ≡ ok tt w
    → stock v b w.inventory ≡ less (stock v b db.inventory) (sold_at branch v b items)
unfolding decrement_items
decrement_items-stock env branch [] v b db w s h =
    ap (λ (o : Outcome (Unit {0})). stock v b (after o).inventory) (sym h)
    ∙ sym (less_zero (stock v b db.inventory))
    ∙ ap (less (stock v b db.inventory)) (sym (sold_at-nil branch v b))
decrement_items-stock env branch (it ∷ items) v b db w s h =
    let (u, done, rest) = decrement_items-cons env branch it items db w h in
    decrement_items-stock env branch items v b u w
      (subst (λ o. IsSound (after o).inventory) done
        (decrement_for_sale-IsSound env it.variant_id branch it.quantity db s))
      rest
    ∙ ap (λ (o : Option ℤ). less o (sold_at branch v b items))
        (decrement-stock env it.variant_id branch v b it.quantity db u s.unique done)
    ∙ less-less (stock v b db.inventory)
        (if v == it.variant_id && b == branch then it.quantity else pos 0)
        (sold_at branch v b items) (sold_at branch v b (it ∷ items))
        (sold_at-cons branch v b it items)

-- The loop changes the inventory alone.
pub decrement_items-frame :
    (env : Env) (branch : Uuid) (items : List SaleItem) (db w : Db)
    → decrement_items env branch items db ≡ ok tt w
    → w ≡ record db { inventory = w.inventory }
unfolding decrement_items
decrement_items-frame env branch [] db w h =
    subst (λ o. after o ≡ record db { inventory = (after o).inventory }) h refl
decrement_items-frame env branch (it ∷ items) db w h =
    let (u, done, rest) = decrement_items-cons env branch it items db w h in
    decrement_items-frame env branch items u w rest
    ∙ ap (λ (d : Db). record d { inventory = w.inventory })
        ((decrement_for_sale-eq-ok env it.variant_id branch it.quantity db u done).1)
