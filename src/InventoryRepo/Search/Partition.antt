-- ===== src/InventoryRepo/Search/Partition.antt =====
-- The states of the grid: the filter on the status in internal/repository/inventory.go.
use ficct_boutique_backend_g.Base.{
  ◌+◌, ◌≡◌, Bool, true, false, String, Option, none, some, List, [], ◌∷◌, ◌&&◌, ◌||◌, not,
  select_where, find_where, ◌==◌, length, All, arith,
}
use ficct_boutique_backend_g.Base.Int.{pos, ◌≤ℤ◌}
use ficct_boutique_backend_g.Models.{Uuid, Inventory, ProductVariant, Product, Branch}
use ficct_boutique_backend_g.Store.{Db}
use ficct_boutique_backend_g.InventoryRepo.Search.{
  InventoryFilter, Joined, with_product, join_row, joined, has_stock_status, passes_filter,
  found_entries,
}

-- Exactly one of three tests holds.
abbrev exactly_one : Bool → Bool → Bool → Bool
exactly_one p q r = (p && (not q && not r)) || ((not p && (q && not r)) || (not p && (not q && r)))

module _ {ℓ} {A : Type ℓ} where
  -- Where each row that passes `b` passes exactly one of three tests, the three counts add up.
  length-three :
      (b p q r : A → Bool) (rows : List A)
      → All (λ x. b x ≡ true → exactly_one (p x) (q x) (r x) ≡ true) rows
      → length (select_where (λ x. b x && p x) rows)
          + length (select_where (λ x. b x && q x) rows)
          + length (select_where (λ x. b x && r x) rows)
        ≡ length (select_where (λ x. b x && true) rows)
  length-three b p q r [] h = omega arith
  length-three b p q r (x ∷ xs) h = ground (arith, h.0, length-three b p q r xs h.1)

-- Neither the stock nor the level is negative.
abbrev pub IsPlain : Inventory → Type 0
IsPlain i = (pos 0 ≤ℤ i.quantity) × (pos 0 ≤ℤ i.reorder_level)

with_product-All :
    (i : Inventory) (v : ProductVariant) (b : Branch) (p : Option Product) (rest : List Joined)
    → IsPlain i
    → All (λ j. IsPlain j.entry) rest
    → All (λ j. IsPlain j.entry) (with_product i v b p rest)
with_product-All i v b none rest plain h = h
with_product-All i v b (some p) rest plain h = (plain, h)

join_row-All :
    (i : Inventory) (v : Option ProductVariant) (products : Uuid → Option Product)
    (b : Option Branch) (rest : List Joined)
    → IsPlain i
    → All (λ j. IsPlain j.entry) rest
    → All (λ j. IsPlain j.entry) (join_row i v products b rest)
join_row-All i none products b rest plain h = h
join_row-All i (some v) products none rest plain h = h
join_row-All i (some v) products (some b) rest plain h =
    with_product-All i v b (products v.product_id) rest plain h

joined-All :
    (db : Db) (rows : List Inventory)
    → All IsPlain rows
    → All (λ j. IsPlain j.entry) (joined db rows)
unfolding joined
joined-All db [] h = h
joined-All db (i ∷ rows) h =
    join_row-All i (find_where (λ v. v.id == i.variant_id) db.variants)
      (λ p. find_where (λ x. x.id == p) db.products)
      (find_where (λ b. b.id == i.branch_id) db.branches) (joined db rows) h.0
      (joined-All db rows h.1)

one_state :
    (ilike : String → String → Bool) (f : InventoryFilter) (j : Joined)
    → f.include_inactive_variants ≡ false
    → IsPlain j.entry
    → passes_filter ilike f j ≡ true
    → exactly_one
        (has_stock_status (some "ok") j)
        (has_stock_status (some "low") j)
        (has_stock_status (some "critical") j)
      ≡ true
one_state ilike f j active plain passes = ground arith

All-one_state :
    (ilike : String → String → Bool) (f : InventoryFilter) (rows : List Joined)
    → f.include_inactive_variants ≡ false
    → All (λ j. IsPlain j.entry) rows
    → All
        (λ j.
          passes_filter ilike f j ≡ true
          → exactly_one
              (has_stock_status (some "ok") j)
              (has_stock_status (some "low") j)
              (has_stock_status (some "critical") j)
            ≡ true)
        rows
All-one_state ilike f [] active h = h
All-one_state ilike f (j ∷ rows) active h =
    (one_state ilike f j active h.0, All-one_state ilike f rows active h.1)

-- The same filter on another status.
abbrev pub with_status : InventoryFilter → Option String → InventoryFilter
with_status f s = record f { status = s }

-- Where inactive variants are left out and no stock or level is negative, the rows that the grid
-- finds under the states ok, low and critical add up to the rows that it finds under no state.
pub found_entries-sum :
    (ilike : String → String → Bool) (f : InventoryFilter) (db : Db)
    → f.include_inactive_variants ≡ false
    → All IsPlain db.inventory
    → length (found_entries ilike (with_status f (some "ok")) db)
        + length (found_entries ilike (with_status f (some "low")) db)
        + length (found_entries ilike (with_status f (some "critical")) db)
      ≡ length (found_entries ilike (with_status f none) db)
unfolding found_entries
found_entries-sum ilike f db active plain =
    length-three (passes_filter ilike f) (has_stock_status (some "ok"))
      (has_stock_status (some "low")) (has_stock_status (some "critical")) (joined db db.inventory)
      (All-one_state ilike f (joined db db.inventory) active (joined-All db db.inventory plain))
