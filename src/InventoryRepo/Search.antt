-- ===== src/InventoryRepo/Search.antt =====
-- SearchInventory of internal/repository/inventory.go: the grid of the inventory.
pub mod Partition
use ficct_boutique_backend_g.Base.{
  ℕ, Bool, true, false, String, Option, none, some, List, [], ◌∷◌, ◌&&◌, ◌||◌, not, ◌==◌,
  if◌then◌else◌, find_where, select_where, order_by, map, length, str_eq,
}
use ficct_boutique_backend_g.Base.Int.{ℤ, pos, ltb_ℤ, leb_ℤ}
use ficct_boutique_backend_g.Models.{Uuid, Inventory, ProductVariant, Product, Branch}
use ficct_boutique_backend_g.Store.{Db, Tx, pure, ◌>>=◌, ◌>>◌, gets, check_page, page}
use ficct_boutique_backend_g.CatalogRepo.{given}

pub record InventoryFilter : Type 0 where
  pub branch_id : Option Uuid
  pub search : Option String
  pub size : Option String
  pub color : Option String
  pub status : Option String
  pub only_low_stock : Bool
  pub include_inactive_variants : Bool

-- A row of the join of inventory, product_variants, products and branches.
pub record Joined : Type 0 where
  pub entry : Inventory
  pub variant : ProductVariant
  pub product : Product
  pub branch : Branch

abbrev pub with_product :
    Inventory → ProductVariant → Branch → Option Product → List Joined → List Joined
with_product i v b none rest = rest
with_product i v b (some p) rest = record { entry = i; variant = v; product = p; branch = b } ∷ rest

abbrev pub join_row :
    Inventory
    → Option ProductVariant
    → (Uuid → Option Product)
    → Option Branch
    → List Joined
    → List Joined
join_row i none products b rest = rest
join_row i (some v) products none rest = rest
join_row i (some v) products (some b) rest = with_product i v b (products v.product_id) rest

unfoldable pub joined : Db → List Inventory → List Joined
joined db [] = []
joined db (i ∷ rows) =
    join_row i (find_where (λ v. v.id == i.variant_id) db.variants)
      (λ p. find_where (λ x. x.id == p) db.products)
      (find_where (λ b. b.id == i.branch_id) db.branches) (joined db rows)

abbrev pub in_branch : Option Uuid → Joined → Bool
in_branch none j = true
in_branch (some b) j = j.entry.branch_id == b

-- `switch *f.Status`: any other text sets no condition.
abbrev pub has_stock_status : Option String → Joined → Bool
has_stock_status none j = true
has_stock_status (some s) j =
    if str_eq s "ok"
    then ltb_ℤ j.entry.reorder_level j.entry.quantity && j.variant.is_active
    else if str_eq s "low"
    then leb_ℤ j.entry.quantity j.entry.reorder_level && ltb_ℤ (pos 0) j.entry.quantity
    else if str_eq s "critical"
    then leb_ℤ j.entry.quantity (pos 0) && leb_ℤ (pos 0) j.entry.quantity
    else if str_eq s "inactive"
    then not j.variant.is_active
    else true

-- The conditions before the one on the status; `ilike x s` is x ILIKE '%' || s || '%'.
abbrev pub passes_filter : (String → String → Bool) → InventoryFilter → Joined → Bool
passes_filter ilike f j =
    in_branch f.branch_id j
    && (given f.search
          (λ s. ilike j.product.name s || (ilike j.product.sku s || ilike j.variant.sku s))
        && (given f.size (str_eq j.variant.size)
            && (given f.color (str_eq j.variant.color)
                && ((f.include_inactive_variants || (j.variant.is_active && j.product.is_active))
                    && (not f.only_low_stock || leb_ℤ j.entry.quantity j.entry.reorder_level)))))

unfoldable pub found_entries : (String → String → Bool) → InventoryFilter → Db → List Joined
unfolding joined
found_entries ilike f db =
    select_where (λ j. passes_filter ilike f j && has_stock_status f.status j)
      (joined db db.inventory)

-- The rows of a page and the number of all of them; `before` is ORDER BY p.name, v.size, v.color,
-- b.name under the collation of the database, read as "does not stand behind".
unfoldable pub search_inventory :
    (String → String → Bool)
    → (Joined → Joined → Bool)
    → InventoryFilter
    → ℤ
    → ℤ
    → Tx (List Inventory × ℕ)
unfolding found_entries
search_inventory ilike before f limit offset = do
  check_page limit offset
  rows ← gets (found_entries ilike f)
  pure (map (λ j. j.entry) (page limit offset (order_by before rows)), length rows)
