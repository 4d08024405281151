-- ===== src/InventoryRepo/Ledger/Atomic.antt =====
-- Each statement of internal/repository/inventory.go that fails leaves the table as it was.
use ficct_boutique_backend_g.Base.{
  refl, ap, Bool, not, ◌&&◌, Option, none, some, ◌==◌, find_where, any_where, update_where,
  update_where-none, Bool-cases, inl, inr,
}
use ficct_boutique_backend_g.Base.Int.{ℤ, pos, ◌+ℤ◌, ltb_ℤ, fits_int32}
use ficct_boutique_backend_g.Models.{Uuid, Inventory}
use ficct_boutique_backend_g.Store.{Error, Tx, Env, fail_if, or_fail, ◌>>=◌, ◌>>◌}
use ficct_boutique_backend_g.Store.Atomic.{
  IsAtomic, >>=-IsAtomic, fail_if-IsReadOnly, or_fail-IsReadOnly,
}
use ficct_boutique_backend_g.InventoryRepo.{
  at_key, new_inventory, has_variant_and_branch, has_stock, take_stock, at_least_zero, leaves_int32,
  put_inventory, insert_or_update, on_conflict, insert_inventory, update_inventory,
  upsert as upsert_row, adjust_stock, set_stock, set_reorder_level, decrement_for_sale,
}

-- Statements that failed changed nothing.
update-IsAtomic :
    (v b : Uuid) (f : Inventory → Inventory) (row : Inventory)
    → IsAtomic (update_inventory v b f row)
unfolding update_inventory
update-IsAtomic v b f row db failed = absurd (failed tt)

insert-IsAtomic : (env : Env) (row : Inventory) → IsAtomic (insert_inventory env row)
unfolding insert_inventory
insert-IsAtomic env row db failed =
    elim (Bool-cases (any_where (λ x. x.id == row.id) db.inventory)) [
      | inl taken ↦ rw taken refl
      | inr free ↦ elim (Bool-cases (has_variant_and_branch row.variant_id row.branch_id db)) [
        | inl linked ↦ absurd (failed (rw (free, linked) tt))
        | inr dangling ↦ rw (free, dangling) refl
      ]
    ]

conflict-IsAtomic :
    (env : Env) (v b : Uuid) (q r : ℤ) (f : Inventory → Inventory) (o : Option Inventory)
    → IsAtomic (on_conflict env v b q r f o)
unfolding on_conflict
conflict-IsAtomic env v b q r f (some row) = update-IsAtomic v b f row
conflict-IsAtomic env v b q r f none = insert-IsAtomic env (new_inventory env v b q r)

-- A guard before a statement.
guarded : {A : Type 0} (c : Bool) (e : Error) (k : Tx A) → IsAtomic k → IsAtomic (fail_if c e >> k)
guarded c e k atomic = >>=-IsAtomic (fail_if c e) (λ _. k) (fail_if-IsReadOnly c e) (λ _. atomic)

insert_or_update-IsAtomic :
    (env : Env) (v b : Uuid) (q r : ℤ) (f : Inventory → Inventory)
    → IsAtomic (insert_or_update env v b q r f)
unfolding insert_or_update
insert_or_update-IsAtomic env v b q r f =
    let write : Tx Inventory =
      λ db. on_conflict env v b q r f (find_where (at_key v b) db.inventory) db in
    guarded (not (fits_int32 q && fits_int32 r)) Error.out_of_range
      (fail_if (ltb_ℤ q (pos 0)) Error.check_violation >> write)
      (guarded (ltb_ℤ q (pos 0)) Error.check_violation write
        (λ db. conflict-IsAtomic env v b q r f (find_where (at_key v b) db.inventory) db))

pub upsert-IsAtomic : (env : Env) (v b : Uuid) (q r : ℤ) → IsAtomic (upsert_row env v b q r)
unfolding upsert_row
upsert-IsAtomic env v b q r = insert_or_update-IsAtomic env v b q r _

pub set_stock-IsAtomic : (env : Env) (v b : Uuid) (q : ℤ) → IsAtomic (set_stock env v b q)
unfolding set_stock
set_stock-IsAtomic env v b q = insert_or_update-IsAtomic env v b q (pos 0) _

-- A statement on the row with a key, if there is one.
on_row :
    (v b : Uuid) (k : Inventory → Tx Inventory)
    → ((row : Inventory) → IsAtomic (k row))
    → IsAtomic ((λ db. or_fail Error.no_rows (find_where (at_key v b) db.inventory) db) >>= k)
on_row v b k atomic =
    >>=-IsAtomic (λ db. or_fail Error.no_rows (find_where (at_key v b) db.inventory) db) k
      (or_fail-IsReadOnly Error.no_rows (λ db. find_where (at_key v b) db.inventory)) atomic

pub adjust-IsAtomic : (env : Env) (v b : Uuid) (delta : ℤ) → IsAtomic (adjust_stock env v b delta)
unfolding adjust_stock
adjust-IsAtomic env v b delta =
    let set : Inventory → Inventory =
      λ x. record x { quantity = at_least_zero (x.quantity +ℤ delta); updated_at = env.now } in
    let write : Inventory → Tx Inventory = λ row.
      fail_if (not (fits_int32 (row.quantity +ℤ delta))) Error.out_of_range
      >> update_inventory v b set row in
    guarded (not (fits_int32 delta)) Error.out_of_range _ (
      on_row v b write λ row.
        guarded (not (fits_int32 (row.quantity +ℤ delta))) Error.out_of_range _
          (update-IsAtomic v b set row))

pub reorder-IsAtomic :
    (env : Env) (v b : Uuid) (level : ℤ) → IsAtomic (set_reorder_level env v b level)
unfolding set_reorder_level
reorder-IsAtomic env v b level =
    let set : Inventory → Inventory =
      λ x. record x { reorder_level = level; updated_at = env.now } in
    guarded (not (fits_int32 level)) Error.out_of_range _
      (on_row v b (update_inventory v b set) (update-IsAtomic v b set))

pub decrement-IsAtomic : (env : Env) (v b : Uuid) (q : ℤ) → IsAtomic (decrement_for_sale env v b q)
unfolding decrement_for_sale
decrement-IsAtomic env v b q =
    let write : Tx (Unit {0}) = λ db.
      (put_inventory (update_where (has_stock v b q) (take_stock env q) db.inventory)
          >> fail_if (not (any_where (has_stock v b q) db.inventory)) Error.insufficient_stock)
        db in
    let tested : Tx (Unit {0}) = λ db.
      (fail_if (any_where (leaves_int32 v b q) db.inventory) Error.out_of_range >> write) db in
    guarded (not (fits_int32 q)) Error.out_of_range tested λ db.
      guarded (any_where (leaves_int32 v b q) db.inventory) Error.out_of_range write
        (λ d failed. elim (Bool-cases (any_where (has_stock v b q) d.inventory)) [
          | inl enough ↦ absurd (failed (rw enough tt))
          | inr short ↦ rw short (
              ap (λ rows. record d { inventory = rows })
                (update_where-none (has_stock v b q) (take_stock env q) d.inventory short))
        ])
        db
