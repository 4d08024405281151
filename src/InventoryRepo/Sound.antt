-- ===== src/InventoryRepo/Sound.antt =====
-- The constraints of the table `inventory` as an invariant, and that every statement keeps it.
use ficct_boutique_backend_g.Base.{
  ◌≡◌, refl, true, false, List, [], ◌∷◌, inl, inr, Bool, not, All, All-append, All-update_where,
  find_where, any_where, update_where, insert_row, any_where-append, any_where-update_where,
  find_where-none_iff_any, arith, Bool-cases, Option-cases,
}
use ficct_boutique_backend_g.Base.Int.{ℤ, pos, ◌+ℤ◌, ◌-ℤ◌, ◌≤ℤ◌, ltb_ℤ, fits_int32}
use ficct_boutique_backend_g.Models.{Uuid, Inventory}
use ficct_boutique_backend_g.Store.{Db, Error, Tx, Env, after, ◌>>◌, fail_if}
use ficct_boutique_backend_g.Store.Keeps.{fail_if-Keeps}
use ficct_boutique_backend_g.InventoryRepo.Stock.{HasUniqueKeys}
use ficct_boutique_backend_g.InventoryRepo.{
  at_key, has_stock, take_stock, at_least_zero, insert_or_update, upsert, set_stock, adjust_stock,
  set_reorder_level, decrement_for_sale, leaves_int32, put_inventory,
}

abbrev pub IsNonneg : Inventory → Type 0
IsNonneg x = pos 0 ≤ℤ x.quantity

-- CHECK (quantity >= 0) and UNIQUE (variant_id, branch_id).
pub record IsSound (rows : List Inventory) : Type 0 where
  pub nonneg : All IsNonneg rows
  pub unique : HasUniqueKeys rows

-- An update that leaves the key of a row alone.
abbrev KeepsKey : (Inventory → Inventory) → Type 0
KeepsKey f = (x : Inventory) → ((f x).variant_id ≡ x.variant_id) × ((f x).branch_id ≡ x.branch_id)

any-update :
    (v b : Uuid) (p : Inventory → Bool) (f : Inventory → Inventory) (rows : List Inventory)
    → KeepsKey f
    → any_where (at_key v b) (update_where p f rows) ≡ any_where (at_key v b) rows
any-update v b p f rows k = any_where-update_where (at_key v b) p f rows λ x. ground (arith, k x)

update-HasUniqueKeys :
    (p : Inventory → Bool) (f : Inventory → Inventory) (rows : List Inventory)
    → KeepsKey f
    → HasUniqueKeys rows
    → HasUniqueKeys (update_where p f rows)
update-HasUniqueKeys p f [] k u = tt
update-HasUniqueKeys p f (x ∷ xs) k u = (
  ground (arith, k x, any-update x.variant_id x.branch_id p f xs k),
  update-HasUniqueKeys p f xs k u.1,
)

insert-HasUniqueKeys :
    (row : Inventory) (rows : List Inventory)
    → any_where (at_key row.variant_id row.branch_id) rows ≡ false
    → HasUniqueKeys rows
    → HasUniqueKeys (insert_row row rows)
insert-HasUniqueKeys row [] h u = (refl, tt)
insert-HasUniqueKeys row (x ∷ xs) h u = (
  ground (arith, any_where-append (at_key x.variant_id x.branch_id) xs (row ∷ [])),
  insert-HasUniqueKeys row xs (ground arith) u.1,
)

pub update-IsSound :
    (p : Inventory → Bool) (f : Inventory → Inventory) (rows : List Inventory)
    → KeepsKey f
    → ((x : Inventory) → IsNonneg x → p x ≡ true → IsNonneg (f x))
    → IsSound rows
    → IsSound (update_where p f rows)
update-IsSound p f rows k n s = record {
  nonneg = All-update_where IsNonneg p f rows n s.nonneg;
  unique = update-HasUniqueKeys p f rows k s.unique;
}

insert-IsSound :
    (row : Inventory) (rows : List Inventory)
    → any_where (at_key row.variant_id row.branch_id) rows ≡ false
    → IsNonneg row
    → IsSound rows
    → IsSound (insert_row row rows)
insert-IsSound row rows h n s = record {
  nonneg = All-append IsNonneg rows (row ∷ []) s.nonneg (n, tt);
  unique = insert-HasUniqueKeys row rows h s.unique;
}

insert_or_update-IsSound :
    (env : Env) (v b : Uuid) (q r : ℤ) (f : Inventory → Inventory) (db : Db)
    → KeepsKey f
    → ((x : Inventory) → (f x).quantity ≡ q)
    → IsSound db.inventory
    → IsSound (after (insert_or_update env v b q r f db)).inventory
unfolding insert_or_update
insert_or_update-IsSound env v b q r f db k e s = elim (Bool-cases (ltb_ℤ q (pos 0))) [
  | inl negative ↦ ground arith
  | inr fine ↦ elim (Option-cases (find_where (at_key v b) db.inventory)) [
    | inl new ↦ ground (
      arith,
      find_where-none_iff_any (at_key v b) db.inventory new,
      insert-IsSound
          (record {
            id = env.uuid 0;
            variant_id = v;
            branch_id = b;
            quantity = q;
            reorder_level = r;
            updated_at = env.now;
          })
          db.inventory (find_where-none_iff_any (at_key v b) db.inventory new) (ground arith) s,
    )
    | inr (row, found) ↦
        ground
          (arith, update-IsSound (at_key v b) f db.inventory k (λ x n h. rw (e x) (ground arith)) s)
  ]
]

at_least_zero_nonneg : (a : ℤ) → pos 0 ≤ℤ at_least_zero a
at_least_zero_nonneg a = ground arith

-- INSERT … ON CONFLICT with both columns.
pub upsert-IsSound :
    (env : Env) (v b : Uuid) (q r : ℤ) (db : Db)
    → IsSound db.inventory
    → IsSound (after (upsert env v b q r db)).inventory
unfolding upsert
upsert-IsSound env v b q r db s =
    insert_or_update-IsSound env v b q r _ db (λ x. (refl, refl)) (λ x. refl) s

pub set_stock-IsSound :
    (env : Env) (v b : Uuid) (q : ℤ) (db : Db)
    → IsSound db.inventory
    → IsSound (after (set_stock env v b q db)).inventory
unfolding set_stock
set_stock-IsSound env v b q db s =
    insert_or_update-IsSound env v b q (pos 0) _ db (λ x. (refl, refl)) (λ x. refl) s

pub adjust_stock-IsSound :
    (env : Env) (v b : Uuid) (delta : ℤ) (db : Db)
    → IsSound db.inventory
    → IsSound (after (adjust_stock env v b delta db)).inventory
unfolding adjust_stock
adjust_stock-IsSound env v b delta db s = ground (
  arith,
  update-IsSound (at_key v b)
      (λ x. record x { quantity = at_least_zero (x.quantity +ℤ delta); updated_at = env.now })
      db.inventory (λ x. (refl, refl)) (λ x n h. at_least_zero_nonneg (x.quantity +ℤ delta)) s,
)

pub set_reorder_level-IsSound :
    (env : Env) (v b : Uuid) (level : ℤ) (db : Db)
    → IsSound db.inventory
    → IsSound (after (set_reorder_level env v b level db)).inventory
unfolding set_reorder_level
set_reorder_level-IsSound env v b level db s = ground (
  arith,
  update-IsSound (at_key v b) (λ x. record x { reorder_level = level; updated_at = env.now })
      db.inventory (λ x. (refl, refl)) (λ x n h. n) s,
)

take_stock-IsNonneg :
    (env : Env) (v b : Uuid) (q : ℤ) (x : Inventory)
    → has_stock v b q x ≡ true
    → IsNonneg (take_stock env q x)
unfolding ◌-ℤ◌
take_stock-IsNonneg env v b q x h = ground arith

pub decrement_for_sale-IsSound :
    (env : Env) (v b : Uuid) (q : ℤ) (db : Db)
    → IsSound db.inventory
    → IsSound (after (decrement_for_sale env v b q db)).inventory
unfolding decrement_for_sale
decrement_for_sale-IsSound env v b q =
    let write : Tx (Unit {0}) = λ db.
      (put_inventory (update_where (has_stock v b q) (take_stock env q) db.inventory)
          >> fail_if (not (any_where (has_stock v b q) db.inventory)) Error.insufficient_stock)
        db in
    let guarded : Tx (Unit {0}) = λ db.
      (fail_if (any_where (leaves_int32 v b q) db.inventory) Error.out_of_range >> write) db in
    fail_if-Keeps IsSound (not (fits_int32 q)) Error.out_of_range guarded λ db s.
      fail_if-Keeps IsSound (any_where (leaves_int32 v b q) db.inventory) Error.out_of_range write
        (λ d t. written d t) db s
  where
    written :
        (d : Db)
        → IsSound d.inventory
        → IsSound
            (after (
              (put_inventory (update_where (has_stock v b q) (take_stock env q) d.inventory)
                  >> fail_if
                      (not (any_where (has_stock v b q) d.inventory))
                      Error.insufficient_stock)
                d)).inventory
    written d t = ground (
      arith,
      update-IsSound (has_stock v b q) (take_stock env q) d.inventory (λ x. (refl, refl))
          (λ x n h. take_stock-IsNonneg env v b q x h) t,
    )

-- Every statement on the inventory, whether it goes well or not, keeps the table in order: no
-- quantity is negative, and there is at most one row for each variant at each branch.
pub statements-IsSound :
    (env : Env) (v b : Uuid) (quantity level : ℤ) (db : Db)
    → IsSound db.inventory
    → IsSound (after (upsert env v b quantity level db)).inventory
      × IsSound (after (set_stock env v b quantity db)).inventory
      × IsSound (after (adjust_stock env v b quantity db)).inventory
      × IsSound (after (set_reorder_level env v b level db)).inventory
      × IsSound (after (decrement_for_sale env v b quantity db)).inventory
statements-IsSound env v b quantity level db s = (
  upsert-IsSound env v b quantity level db s,
  set_stock-IsSound env v b quantity db s,
  adjust_stock-IsSound env v b quantity db s,
  set_reorder_level-IsSound env v b level db s,
  decrement_for_sale-IsSound env v b quantity db s,
)
