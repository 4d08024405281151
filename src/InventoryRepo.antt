-- ===== src/InventoryRepo.antt =====
-- internal/repository/inventory.go: the statements on the table `inventory`, with its constraints
-- in migrations/0001_init.up.sql (CHECK quantity >= 0, UNIQUE (variant_id, branch_id)).
pub mod Stock
pub mod Sound
pub mod Result
pub mod Search
pub mod Ledger
use ficct_boutique_backend_g.Base.{
  ℕ, Bool, Option, none, some, List, [], ◌∷◌, ◌&&◌, ◌||◌, not, ◌==◌, if◌then◌else◌, find_where,
  select_where, any_where, update_where, insert_row, order_by, leb, ℕ_discrete,
}
use ficct_boutique_backend_g.Base.Int.{ℤ, pos, ◌+ℤ◌, ◌-ℤ◌, ltb_ℤ, leb_ℤ, fits_int32}
use ficct_boutique_backend_g.Models.{Uuid, Inventory}
use ficct_boutique_backend_g.Store.{
  Db, Error, Tx, Env, ok, err, pure, fail, ◌>>=◌, ◌>>◌, gets, fail_if, or_fail,
}

-- WHERE variant_id = $1 AND branch_id = $2
abbrev pub at_key : Uuid → Uuid → Inventory → Bool
at_key v b row = row.variant_id == v && row.branch_id == b

abbrev pub put_inventory : List Inventory → Tx (Unit {0})
put_inventory rows db = ok tt (record db { inventory = rows })

-- The foreign keys of a new row.
abbrev pub has_variant_and_branch : Uuid → Uuid → Db → Bool
has_variant_and_branch v b db =
    any_where (λ x. x.id == v) db.variants && any_where (λ x. x.id == b) db.branches

-- The branch of INSERT … ON CONFLICT that finds no row with the key.
insert_inventory : Env → Inventory → Tx Inventory
insert_inventory env row = do
  taken ← gets (λ db. any_where (λ x. x.id == row.id) db.inventory)
  fail_if taken Error.unique_violation
  linked ← gets (has_variant_and_branch row.variant_id row.branch_id)
  fail_if (not linked) Error.foreign_key_violation
  rows ← gets (λ db. db.inventory)
  put_inventory (insert_row row rows)
  pure row

-- UPDATE … WHERE variant_id = $1 AND branch_id = $2 RETURNING …, on the row that it finds.
update_inventory : Uuid → Uuid → (Inventory → Inventory) → Inventory → Tx Inventory
update_inventory v b set row = do
  rows ← gets (λ db. db.inventory)
  put_inventory (update_where (at_key v b) set rows)
  pure (set row)

abbrev pub new_inventory : Env → Uuid → Uuid → ℤ → ℤ → Inventory
new_inventory env v b q r = record {
  id = env.uuid 0;
  variant_id = v;
  branch_id = b;
  quantity = q;
  reorder_level = r;
  updated_at = env.now;
}

-- ON CONFLICT (variant_id, branch_id), with the row that the key finds.
on_conflict : Env → Uuid → Uuid → ℤ → ℤ → (Inventory → Inventory) → Option Inventory → Tx Inventory
unfolding insert_inventory update_inventory
on_conflict env v b q r set (some row) = update_inventory v b set row
on_conflict env v b q r set none = insert_inventory env (new_inventory env v b q r)

-- INSERT … VALUES ($1,$2,q,r) ON CONFLICT (variant_id, branch_id) DO UPDATE SET … RETURNING …
insert_or_update : Env → Uuid → Uuid → ℤ → ℤ → (Inventory → Inventory) → Tx Inventory
unfolding on_conflict
insert_or_update env v b q r set = do
  fail_if (not (fits_int32 q && fits_int32 r)) Error.out_of_range
  fail_if (ltb_ℤ q (pos 0)) Error.check_violation
  existing ← gets (λ db. find_where (at_key v b) db.inventory)
  on_conflict env v b q r set existing

unfoldable pub upsert : Env → Uuid → Uuid → ℤ → ℤ → Tx Inventory
unfolding insert_or_update
upsert env v b quantity reorder_level =
    insert_or_update env v b quantity reorder_level (λ row. record row {
      quantity = quantity;
      reorder_level = reorder_level;
      updated_at = env.now;
    })

unfoldable pub set_stock : Env → Uuid → Uuid → ℤ → Tx Inventory
unfolding insert_or_update
set_stock env v b qty =
    insert_or_update env v b qty (pos 0)
      (λ row. record row { quantity = qty; updated_at = env.now })

-- GREATEST(0, a)
abbrev pub at_least_zero : ℤ → ℤ
at_least_zero a = if ltb_ℤ a (pos 0) then pos 0 else a

-- UPDATE … SET quantity = GREATEST(0, quantity + $3): the sum is an INTEGER, so it can overflow.
unfoldable pub adjust_stock : Env → Uuid → Uuid → ℤ → Tx Inventory
unfolding update_inventory
adjust_stock env v b delta = do
  fail_if (not (fits_int32 delta)) Error.out_of_range
  row ← (λ db. or_fail Error.no_rows (find_where (at_key v b) db.inventory) db)
  fail_if (not (fits_int32 (row.quantity +ℤ delta))) Error.out_of_range
  update_inventory v b
      (λ x. record x { quantity = at_least_zero (x.quantity +ℤ delta); updated_at = env.now }) row

unfoldable pub set_reorder_level : Env → Uuid → Uuid → ℤ → Tx Inventory
unfolding update_inventory
set_reorder_level env v b level = do
  fail_if (not (fits_int32 level)) Error.out_of_range
  row ← (λ db. or_fail Error.no_rows (find_where (at_key v b) db.inventory) db)
  update_inventory v b (λ x. record x { reorder_level = level; updated_at = env.now }) row

-- WHERE variant_id = $1 AND branch_id = $2 AND quantity >= $3
abbrev pub has_stock : Uuid → Uuid → ℤ → Inventory → Bool
has_stock v b qty row = at_key v b row && leb_ℤ qty row.quantity

abbrev pub take_stock : Env → ℤ → Inventory → Inventory
take_stock env qty row = record row { quantity = row.quantity -ℤ qty; updated_at = env.now }

-- `quantity - $3` of a row that the statement meets is no INTEGER.
abbrev pub leaves_int32 : Uuid → Uuid → ℤ → Inventory → Bool
leaves_int32 v b qty row = has_stock v b qty row && not (fits_int32 (row.quantity -ℤ qty))

-- `tag.RowsAffected() == 0` holds when no row passes the test.
unfoldable pub decrement_for_sale : Env → Uuid → Uuid → ℤ → Tx (Unit {0})
decrement_for_sale env v b qty = do
  fail_if (not (fits_int32 qty)) Error.out_of_range
  too_large ← gets (λ db. any_where (leaves_int32 v b qty) db.inventory)
  fail_if too_large Error.out_of_range
  rows ← gets (λ db. db.inventory)
  put_inventory (update_where (has_stock v b qty) (take_stock env qty) rows)
  fail_if (not (any_where (has_stock v b qty) rows)) Error.insufficient_stock

-- ORDER BY updated_at DESC
unfoldable pub by_branch : Uuid → Tx (List Inventory)
by_branch b = gets (λ db.
    order_by (λ x y. leb y.updated_at x.updated_at)
      (select_where (λ x. x.branch_id == b) db.inventory))
