-- ===== src/Examples/Reading.antt =====
-- What callers read at the shop of `Examples`.
use ficct_boutique_backend_g.Base.{
  ◌+◌, ◌≡◌, refl, true, false, Bool, String, none, some, [], ◌∷◌, All, length, arith, order_by,
}
use ficct_boutique_backend_g.Models.{Order}
use ficct_boutique_backend_g.Store.{Db}
use ficct_boutique_backend_g.Authz.{require_auth, is_admin_or_staff, subject_uuid}
use ficct_boutique_backend_g.OrderRepo.{is_order_of, list_by_user}
use ficct_boutique_backend_g.Queries
use ficct_boutique_backend_g.Queries.Visible.{orders-All}
use ficct_boutique_backend_g.InventoryRepo.Search.{InventoryFilter, found_entries}
use ficct_boutique_backend_g.InventoryRepo.Search.Partition.{with_status, found_entries-sum}
use ficct_boutique_backend_g.Examples.{shop}
use ficct_boutique_backend_g.Examples.Confirming.{order_made, shop_after}
use ficct_boutique_backend_g.Examples.Selling.{as_maria, by_name}

-- Text that contains every other text.
abbrev anything : String → String → Bool
anything text part = true

-- The shop after the confirmation, with an order that belongs to a sale that is not there.
abbrev another : Order
another = record order_made { id = 900; sale_id = 901 }

abbrev two_orders : Db
two_orders = record shop_after { orders = another ∷ order_made ∷ [] }

orders-All_example : All (λ o. is_order_of 1 two_orders o ≡ true) (order_made ∷ [])
unfolding Queries.orders is_admin_or_staff require_auth subject_uuid list_by_user order_by
orders-All_example =
    orders-All by_name (some as_maria) 1 none none none two_orders two_orders (order_made ∷ []) refl
      refl refl

abbrev low : InventoryFilter
low = record {
  branch_id = some 3;
  search = none;
  size = none;
  color = none;
  status = none;
  only_low_stock = false;
  include_inactive_variants = false;
}

found_entries-sum_example :
    length (found_entries anything (with_status low (some "ok")) shop)
      + length (found_entries anything (with_status low (some "low")) shop)
      + length (found_entries anything (with_status low (some "critical")) shop)
    ≡ length (found_entries anything (with_status low none) shop)
found_entries-sum_example =
    found_entries-sum anything low shop refl ((omega arith, omega arith), tt)
