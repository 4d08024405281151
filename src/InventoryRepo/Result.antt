-- ===== src/InventoryRepo/Result.antt =====
-- What SetStock and AdjustStock of internal/repository/inventory.go answer and leave.
use ficct_boutique_backend_g.Base.{
  ◌≡◌, refl, ◌∙◌, sym, ap, Option, some, none, List, [], ◌∷◌, ◌&&◌, ◌==◌, not, if◌then◌else◌,
  find_where, any_where, update_where, insert_row, arith,
}
use mathlib.Core.Option
use ficct_boutique_backend_g.Base.Int.{ℤ, pos, ◌+ℤ◌, ◌≤ℤ◌, ltb_ℤ, fits_int32}
use ficct_boutique_backend_g.Models.{Uuid, Inventory}
use ficct_boutique_backend_g.Store.{Db, Env, Error, ok}
use ficct_boutique_backend_g.Store.Laws.{ok-injective, fail_if-eq-ok, or_fail-eq-ok}
use ficct_boutique_backend_g.InventoryRepo.Stock.{stock}
use ficct_boutique_backend_g.InventoryRepo.{
  at_key, at_least_zero, insert_inventory, update_inventory, on_conflict, new_inventory,
  insert_or_update, upsert, set_stock, adjust_stock, has_variant_and_branch,
}

-- The stock of one variant at one branch is `q`, that of every other as it was.
abbrev pub IsStockSet : Uuid → Uuid → ℤ → Db → Db → Type 0
IsStockSet v b q db w =
    (v' b' : Uuid)
    → stock v' b' w.inventory ≡ (if v' == v && b' == b then some q else stock v' b' db.inventory)

-- An UPDATE of the row with a key, seen by stock.
pub stock-update_key :
    (v b v' b' : Uuid) (f : Inventory → Inventory) (g : ℤ → ℤ) (rows : List Inventory)
    → ((x : Inventory)
        → ((f x).variant_id ≡ x.variant_id)
          × ((f x).branch_id ≡ x.branch_id)
          × ((f x).quantity ≡ g x.quantity))
    → stock v' b' (update_where (at_key v b) f rows)
      ≡ (if v' == v && b' == b then Option.map g (stock v b rows) else stock v' b' rows)
stock-update_key v b v' b' f g [] k = ground arith
stock-update_key v b v' b' f g (x ∷ xs) k = ground (arith, k x, stock-update_key v b v' b' f g xs k)

pub stock-found :
    (v b : Uuid) (rows : List Inventory) (row : Inventory)
    → find_where (at_key v b) rows ≡ some row
    → stock v b rows ≡ some row.quantity
stock-found v b rows row h = ap (Option.map (λ x. x.quantity)) h

-- Adjusting the stock of a variant at a branch needs a row for it. It adds the change to what is
-- there and stops at zero, answers the row with that quantity, and leaves all other stock alone.
pub adjust_stock-IsStockSet :
    (env : Env) (v b : Uuid) (delta : ℤ) (db w : Db) (row : Inventory)
    → adjust_stock env v b delta db ≡ ok row w
    → (old : ℤ) × (stock v b db.inventory ≡ some old)
      × (row.quantity ≡ at_least_zero (old +ℤ delta))
      × IsStockSet v b (at_least_zero (old +ℤ delta)) db w
unfolding adjust_stock update_inventory
adjust_stock-IsStockSet env v b delta db w row h =
    let (_, h1) = fail_if-eq-ok (not (fits_int32 delta)) Error.out_of_range _ db h in
    let (old, found, h2) =
      or_fail-eq-ok Error.no_rows (find_where (at_key v b) db.inventory) _ db h1 in
    let (_, h3) =
      fail_if-eq-ok (not (fits_int32 (old.quantity +ℤ delta))) Error.out_of_range _ db h2 in
    let (same, left) = ok-injective h3 in
    let here = stock-found v b db.inventory old found in
    (
      old.quantity,
      here,
      ap (λ (x : Inventory). x.quantity) (sym same),
      λ v' b'.
          ap (λ (d : Db). stock v' b' d.inventory) (sym left)
          ∙ (stock-update_key v b v' b' _ (λ q. at_least_zero (q +ℤ delta)) db.inventory
                (λ x. (refl, refl, refl))
              ∙ ap
                  (λ o.
                    if v' == v && b' == b
                    then Option.map (λ q. at_least_zero (q +ℤ delta)) o
                    else stock v' b' db.inventory)
                  here),
    )

stock-insert :
    (v' b' : Uuid) (row : Inventory) (rows : List Inventory)
    → find_where (at_key row.variant_id row.branch_id) rows ≡ none
    → stock v' b' (insert_row row rows) ≡ (
        if v' == row.variant_id && b' == row.branch_id then some row.quantity else stock v' b' rows)
stock-insert v' b' row [] h = ground arith
stock-insert v' b' row (x ∷ xs) h = ground (arith, stock-insert v' b' row xs)

on_conflict-IsStockSet :
    (env : Env) (v b : Uuid) (q r : ℤ) (f : Inventory → Inventory) (o : Option Inventory)
    (db w : Db) (row : Inventory)
    → find_where (at_key v b) db.inventory ≡ o
    → ((x : Inventory)
        → ((f x).variant_id ≡ x.variant_id)
          × ((f x).branch_id ≡ x.branch_id)
          × ((f x).quantity ≡ q))
    → on_conflict env v b q r f o db ≡ ok row w
    → (row.quantity ≡ q) × IsStockSet v b q db w
unfolding on_conflict update_inventory insert_inventory
on_conflict-IsStockSet env v b q r f (some old) db w row found k h =
    let (same, left) = ok-injective h in
    (
      ap (λ (x : Inventory). x.quantity) (sym same) ∙ (k old).2,
      λ v' b'.
          ap (λ (d : Db). stock v' b' d.inventory) (sym left)
          ∙ (stock-update_key v b v' b' f (λ _. q) db.inventory k
              ∙ ap
                  (λ o.
                    if v' == v && b' == b then Option.map (λ _. q) o else stock v' b' db.inventory)
                  (stock-found v b db.inventory old found)),
    )
on_conflict-IsStockSet env v b q r f none db w row missing k h =
    let (_, h1) =
      fail_if-eq-ok (any_where (λ x. x.id == env.uuid 0) db.inventory) Error.unique_violation _ db
        h in
    let (_, h2) =
      fail_if-eq-ok (not (has_variant_and_branch v b db)) Error.foreign_key_violation _ db h1 in
    let (same, left) = ok-injective h2 in
    (
      ap (λ (x : Inventory). x.quantity) (sym same),
      λ v' b'.
          ap (λ (d : Db). stock v' b' d.inventory) (sym left)
          ∙ stock-insert v' b' (new_inventory env v b q r) db.inventory missing,
    )

insert_or_update-IsStockSet :
    (env : Env) (v b : Uuid) (q r : ℤ) (f : Inventory → Inventory) (db w : Db) (row : Inventory)
    → ((x : Inventory)
        → ((f x).variant_id ≡ x.variant_id)
          × ((f x).branch_id ≡ x.branch_id)
          × ((f x).quantity ≡ q))
    → insert_or_update env v b q r f db ≡ ok row w
    → (pos 0 ≤ℤ q) × (row.quantity ≡ q) × IsStockSet v b q db w
unfolding insert_or_update
insert_or_update-IsStockSet env v b q r f db w row k h =
    let (_, h1) = fail_if-eq-ok (not (fits_int32 q && fits_int32 r)) Error.out_of_range _ db h in
    let (nonneg, h2) = fail_if-eq-ok (ltb_ℤ q (pos 0)) Error.check_violation _ db h1 in
    let (same, set) = on_conflict-IsStockSet env v b q r f _ db w row refl k h2 in
    (ground arith, same, set)

-- The same for both columns, and that the stock is not negative.
pub upsert-IsStockSet :
    (env : Env) (v b : Uuid) (q r : ℤ) (db w : Db) (row : Inventory)
    → upsert env v b q r db ≡ ok row w
    → (pos 0 ≤ℤ q) × (row.quantity ≡ q) × IsStockSet v b q db w
unfolding upsert
upsert-IsStockSet env v b q r db w row h =
    insert_or_update-IsStockSet env v b q r _ db w row (λ x. (refl, refl, refl)) h

pub set_stock-nonneg :
    (env : Env) (v b : Uuid) (q : ℤ) (db w : Db) (row : Inventory)
    → set_stock env v b q db ≡ ok row w
    → pos 0 ≤ℤ q
unfolding set_stock
set_stock-nonneg env v b q db w row h =
    (insert_or_update-IsStockSet env v b q (pos 0) _ db w row (λ x. (refl, refl, refl)) h).0

-- Setting the stock of a variant at a branch, with a row for it or without, answers a row with that
-- quantity, and leaves all other stock alone.
pub set_stock-IsStockSet :
    (env : Env) (v b : Uuid) (q : ℤ) (db w : Db) (row : Inventory)
    → set_stock env v b q db ≡ ok row w
    → (row.quantity ≡ q) × IsStockSet v b q db w
unfolding set_stock
set_stock-IsStockSet env v b q db w row h =
    let (_, same, set) =
      insert_or_update-IsStockSet env v b q (pos 0) _ db w row (λ x. (refl, refl, refl)) h in
    (same, set)
