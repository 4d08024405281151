-- ===== src/CatalogService.antt =====
-- internal/service/catalog_service.go: validation in front of the repositories.
use ficct_boutique_backend_g.Base.{◌||◌, if◌then◌else◌, str_eq}
use ficct_boutique_backend_g.Base.Int.{ℤ, pos, ltb_ℤ}
use ficct_boutique_backend_g.Models.{Uuid, Product, ProductVariant, Inventory}
use ficct_boutique_backend_g.Float.{Float64Ops, float_zero}
use ficct_boutique_backend_g.Store.{Error, Tx, Env, ◌>>◌, fail_if}
use ficct_boutique_backend_g.CatalogRepo.{NewProduct, NewVariant}
use ficct_boutique_backend_g.CatalogRepo
use ficct_boutique_backend_g.InventoryRepo

-- SKU, name and category are required, the price is not negative, the currency defaults to BOB.
unfoldable pub create_product : Float64Ops → Env → NewProduct → Tx Product
create_product F env input = do
  fail_if (str_eq input.sku "" || (str_eq input.name "" || str_eq input.category ""))
      Error.invalid_input
  fail_if (F.lt input.base_price float_zero) Error.invalid_input
  CatalogRepo.create_product F env
      (record input { currency = if str_eq input.currency "" then "BOB" else input.currency })

unfoldable pub create_variant : Float64Ops → Env → NewVariant → Tx ProductVariant
create_variant F env input = do
  fail_if (str_eq input.sku "" || (str_eq input.size "" || str_eq input.color ""))
      Error.invalid_input
  CatalogRepo.create_variant F env input

unfoldable pub upsert_inventory : Env → Uuid → Uuid → ℤ → ℤ → Tx Inventory
upsert_inventory env variant branch quantity reorder_level = do
  fail_if (ltb_ℤ quantity (pos 0) || ltb_ℤ reorder_level (pos 0)) Error.invalid_input
  InventoryRepo.upsert env variant branch quantity reorder_level
