-- ===== src/Mutations/Stocking.antt =====
-- graph/mutations.go: the mutations of the inventory and of the catalog, and createBranch.
use ficct_boutique_backend_g.Base.{String, true, false, Option, none, some}
use ficct_boutique_backend_g.Base.Int.{ℤ, pos, ltb_ℤ}
use ficct_boutique_backend_g.Models.{
  Uuid, Float64, Branch, Collection, Product, ProductVariant, Inventory,
}
use ficct_boutique_backend_g.Float.{Float64Ops}
use ficct_boutique_backend_g.Store.{Error, Tx, Env, pure, ◌>>=◌, ◌>>◌, fail_if}
use ficct_boutique_backend_g.Authz.{Context, check, require_admin, require_admin_or_staff}
use ficct_boutique_backend_g.CatalogRepo.{NewProduct, NewVariant, ProductChange}
use ficct_boutique_backend_g.BranchRepo
use ficct_boutique_backend_g.BranchRepo.{NewBranch}
use ficct_boutique_backend_g.CatalogRepo
use ficct_boutique_backend_g.CatalogService
use ficct_boutique_backend_g.InventoryRepo

-- A number of type Int of GraphQL is an int32; `int(…)` keeps it.
unfoldable pub upsert_inventory : Env → Context → Uuid → Uuid → ℤ → ℤ → Tx Inventory
upsert_inventory env ctx variant branch quantity reorder_level = do
  check (require_admin_or_staff ctx)
  CatalogService.upsert_inventory env variant branch quantity reorder_level

unfoldable pub set_inventory_stock : Env → Context → Uuid → Uuid → ℤ → Tx Inventory
set_inventory_stock env ctx variant branch quantity = do
  check (require_admin_or_staff ctx)
  fail_if (ltb_ℤ quantity (pos 0)) Error.negative_quantity
  InventoryRepo.set_stock env variant branch quantity

unfoldable pub adjust_inventory_stock : Env → Context → Uuid → Uuid → ℤ → Tx Inventory
adjust_inventory_stock env ctx variant branch delta = do
  check (require_admin_or_staff ctx)
  InventoryRepo.adjust_stock env variant branch delta

unfoldable pub update_inventory_reorder_level : Env → Context → Uuid → Uuid → ℤ → Tx Inventory
update_inventory_reorder_level env ctx variant branch reorder_level = do
  check (require_admin_or_staff ctx)
  fail_if (ltb_ℤ reorder_level (pos 0)) Error.negative_reorder_level
  InventoryRepo.set_reorder_level env variant branch reorder_level

unfoldable pub create_collection :
    Env → Context → String → Option String → Option String → Tx Collection
create_collection env ctx name description season = do
  check (require_admin ctx)
  CatalogRepo.create_collection env name description season

-- The argument of createProduct, whose currency may be left out.
pub record CreateProductArgs : Type 0 where
  pub collection_id : Option Uuid
  pub sku : String
  pub name : String
  pub description : Option String
  pub category : String
  pub base_price : Float64
  pub currency : Option String
  pub image_url : Option String
  pub image_document_id : Option Uuid

-- `if args.Input.Currency != nil { in.Currency = *args.Input.Currency }`, from the zero value.
abbrev pub text_or_empty : Option String → String
text_or_empty none = ""
text_or_empty (some s) = s

unfoldable pub create_product : Float64Ops → Env → Context → CreateProductArgs → Tx Product
create_product F env ctx args = do
  check (require_admin ctx)
  CatalogService.create_product F env (record {
    collection_id = args.collection_id;
    sku = args.sku;
    name = args.name;
    description = args.description;
    category = args.category;
    base_price = args.base_price;
    currency = text_or_empty args.currency;
    image_url = args.image_url;
    image_document_id = args.image_document_id;
  })

unfoldable pub update_product : Float64Ops → Env → Context → Uuid → ProductChange → Tx Product
update_product F env ctx id change = do
  check (require_admin ctx)
  CatalogRepo.update_product F env id change

unfoldable pub create_variant : Float64Ops → Env → Context → NewVariant → Tx ProductVariant
create_variant F env ctx input = do
  check (require_admin ctx)
  CatalogService.create_variant F env input

unfoldable pub deactivate_product : Env → Context → Uuid → Tx Product
deactivate_product env ctx id = do
  check (require_admin ctx)
  CatalogRepo.set_product_active env id false

unfoldable pub activate_product : Env → Context → Uuid → Tx Product
activate_product env ctx id = do
  check (require_admin ctx)
  CatalogRepo.set_product_active env id true

unfoldable pub replace_product_image : Env → Context → Uuid → Uuid → Tx Product
replace_product_image env ctx id doc = do
  check (require_admin ctx)
  replaced ← CatalogRepo.replace_product_image env id doc
  pure (replaced.0)

unfoldable pub deactivate_variant : Env → Context → Uuid → Tx ProductVariant
deactivate_variant env ctx id = do
  check (require_admin ctx)
  CatalogRepo.set_variant_active env id false

unfoldable pub activate_variant : Env → Context → Uuid → Tx ProductVariant
activate_variant env ctx id = do
  check (require_admin ctx)
  CatalogRepo.set_variant_active env id true

unfoldable pub create_branch : Env → Context → NewBranch → Tx Branch
create_branch env ctx b = do check (require_admin ctx); BranchRepo.create env b
