-- ===== src/Queries/Grid.antt =====
-- graph/queries.go: the grid of the inventory.
pub mod Paged
use ficct_boutique_backend_g.Base.{
  ℕ, String, Bool, true, false, ◌&&◌, Option, none, some, List, [], ◌∷◌, if◌then◌else◌,
}
use ficct_boutique_backend_g.Base.Int.{ℤ, pos, leb_ℤ, to_int32}
use ficct_boutique_backend_g.Models.{Uuid, Inventory}
use ficct_boutique_backend_g.Store.{Tx, pure, ◌>>=◌, ◌>>◌}
use ficct_boutique_backend_g.Authz.{Context, check, require_admin_or_staff}
use ficct_boutique_backend_g.InventoryRepo.Search.{InventoryFilter, Joined, search_inventory}
use ficct_boutique_backend_g.Queries.{asks_for}

-- The argument `filter`, in which each part may be left out.
pub record FilterArgs : Type 0 where
  pub branch_id : Option Uuid
  pub search : Option String
  pub size : Option String
  pub color : Option String
  pub status : Option String
  pub only_low_stock : Option Bool
  pub include_inactive_variants : Option Bool

-- `f := repository.InventoryFilter{}`, filled from the argument.
abbrev pub filter_of : Option FilterArgs → InventoryFilter
filter_of none = record {
  branch_id = none;
  search = none;
  size = none;
  color = none;
  status = none;
  only_low_stock = false;
  include_inactive_variants = false;
}
filter_of (some a) = record {
  branch_id = a.branch_id;
  search = a.search;
  size = a.size;
  color = a.color;
  status = a.status;
  only_low_stock = asks_for a.only_low_stock;
  include_inactive_variants = asks_for a.include_inactive_variants;
}

-- `if l >= 1 && l <= 200 { limit = l }`
abbrev pub page_limit : Option ℤ → ℤ
page_limit none = pos 25
page_limit (some l) = if leb_ℤ (pos 1) l && leb_ℤ l (pos 200) then l else pos 25

abbrev pub page_offset : Option ℤ → ℤ
page_offset none = pos 0
page_offset (some o) = if leb_ℤ (pos 0) o then o else pos 0

pub record InventoryPage : Type 0 where
  pub entries : List Inventory
  pub total : ℤ
  pub limit : ℤ
  pub offset : ℤ

unfoldable pub inventory_entries :
    (String → String → Bool)
    → (Joined → Joined → Bool)
    → Context
    → Option FilterArgs
    → Option ℤ
    → Option ℤ
    → Tx InventoryPage
inventory_entries ilike before ctx filter limit offset = do
  check (require_admin_or_staff ctx)
  found ← search_inventory ilike before (filter_of filter) (page_limit limit) (page_offset offset)
  pure (record {
    entries = found.0;
    total = to_int32 (pos found.1);
    limit = to_int32 (page_limit limit);
    offset = to_int32 (page_offset offset);
  })
