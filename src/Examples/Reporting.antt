-- ===== src/Examples/Reporting.antt =====
-- The reports and the batch reads at the shop of `Examples`, after the sale was confirmed.
use Prim.Native.Nat.{min}
use Prim.Native.String.{len}
use ficct_boutique_backend_g.Base.{
  take, drop, order_by, select_where, distinct, ◌+◌, ◌-◌, ◌≡◌, refl, String, Bool, true, none, some,
  List, [], ◌∷◌, ◌++◌, ◌==◌, All, IsOrdered, any_where, arith, length, map, ltb, leb,
}
use ficct_boutique_backend_g.Base.Int.{ℤ, pos, pos_part, leb_ℤ, ◌≤ℤ◌}
use ficct_boutique_backend_g.Models.{Uuid, Float64, Role, ProductVariant}
use ficct_boutique_backend_g.Store.{Db, ok}
use ficct_boutique_backend_g.Authz.{Claims, require_admin_or_staff}
use ficct_boutique_backend_g.CatalogRepo.{variants_by_product}
use ficct_boutique_backend_g.CatalogRepo.Batch.{variants_by_product_ids}
use ficct_boutique_backend_g.CatalogRepo.Batch.Agree.{IsCollation, variants_by_product_ids-agrees}
use ficct_boutique_backend_g.Reports.{
  Sql, MonthlySaleRow, PopularProductRow, confirmed_since, clamped, monthly_sales, popular_products,
  sold_items,
}
use ficct_boutique_backend_g.Reports.Monthly.{all_counts, monthly_sales-counts}
use ficct_boutique_backend_g.Reports.Popular.{
  IsShown, IsCounted, is_some_item, counts_for, popular_products-IsOrdered,
}
use ficct_boutique_backend_g.InventoryRepo.Search.{Joined, found_entries}
use ficct_boutique_backend_g.Queries.Grid.{filter_of, InventoryPage, inventory_entries}
use ficct_boutique_backend_g.Queries.Grid.Paged.{IsAsked, IsFrom, inventory_entries-Paged}
use ficct_boutique_backend_g.Examples.{shop, env_at, blouse_m}
use ficct_boutique_backend_g.Examples.Confirming.{shop_after}
use ficct_boutique_backend_g.Examples.Selling.{as_maria}

-- All times are in one month, and a day is one unit of time.
abbrev one_month : Sql
one_month = record { month_of = λ t. 0; months_before = λ t n. 0; date_of = λ t. t; sum = total }
  where
    total : List Float64 → Float64
    total [] = 0
    total (x ∷ xs) = x + total xs

monthly_sales-counts_example :
    (rows : List MonthlySaleRow) × (window : ℤ) × (monthly_sales one_month
        (env_at 9)
        (pos 6)
        shop_after
      ≡ ok rows shop_after)
    × IsOrdered ltb (map (λ (r : MonthlySaleRow). r.month) rows)
    × (all_counts rows ≡ length (confirmed_since one_month 9 window shop_after))
    × (window ≡ clamped (pos 60) (pos 12) (pos 6))
    × (pos 1 ≤ℤ window)
    × (window ≤ℤ pos 60)
monthly_sales-counts_example = monthly_sales-counts one_month (env_at 9) (pos 6) shop_after

popular_products-IsOrdered_example :
    (rows rest : List PopularProductRow) × (n : ℤ) × (popular_products one_month
        (pos 500)
        shop_after
      ≡ ok rows shop_after)
    × IsShown (pos 500) n
    × (length rows ≡ min (pos_part n) (length (rows ++ rest)))
    × IsOrdered (λ x y. leb_ℤ y.units_sold x.units_sold) (rows ++ rest)
    × All (IsCounted one_month shop_after) (rows ++ rest)
    × (length (rows ++ rest) ≡ length (distinct (map (λ x. x.product.id) (sold_items shop_after))))
    × ((id : Uuid)
        → any_where (λ r. r.product_id == id) (rows ++ rest)
          ≡ is_some_item (select_where (counts_for shop_after id) shop_after.sale_items))
popular_products-IsOrdered_example = popular_products-IsOrdered one_month (pos 500) shop_after

-- Texts in the order of their lengths.
abbrev by_length : String → String → Bool
by_length a b = leb (len a) (len b)

by_length-IsCollation : IsCollation by_length
by_length-IsCollation = record { trans = λ a b c h k. ground arith; total = λ a b h. ground arith }

abbrev large : ProductVariant
large = record blouse_m { id = 50; sku = "BLZ-001-L"; size = "L"; color = "rojo" }

abbrev two_variants : Db
two_variants = record shop { variants = blouse_m ∷ large ∷ [] }

variants_by_product_ids-agrees_example :
    (groups : Uuid → List ProductVariant) × (variants_by_product_ids by_length
        (9 ∷ 4 ∷ [])
        two_variants
      ≡ ok groups two_variants)
    × (variants_by_product by_length 4 two_variants ≡ ok (groups 4) two_variants)
variants_by_product_ids-agrees_example =
    variants_by_product_ids-agrees by_length by_length-IsCollation (9 ∷ 4 ∷ []) 4 two_variants refl

abbrev as_staff : Claims
as_staff = record as_maria { role = Role.staff }

abbrev anything : String → String → Bool
anything text part = true

abbrev in_any_order : Joined → Joined → Bool
in_any_order x y = true

inventory_entries-Paged_example :
    (p : InventoryPage) × (inventory_entries anything in_any_order
        (some as_staff)
        none
        (some (pos 500))
        none
        shop
      ≡ ok p shop)
    × (p.total ≡ pos (length (found_entries anything (filter_of none) shop)))
    × IsAsked (pos 1) (pos 200) (pos 25) (some (pos 500)) p.limit
    × IsFrom none p.offset
    × (p.entries
        ≡ map
            (λ j. j.entry)
            (take (pos_part p.limit) (
              drop
                (pos_part p.offset)
                (order_by in_any_order (found_entries anything (filter_of none) shop)))))
    × (length p.entries
        ≡ min
            (pos_part p.limit)
            (length (found_entries anything (filter_of none) shop) - pos_part p.offset))
unfolding require_admin_or_staff found_entries
inventory_entries-Paged_example =
    inventory_entries-Paged anything in_any_order (some as_staff) none (some (pos 500)) none shop
      refl (omega arith) tt
