-- ===== src/Resolvers.antt =====
-- graph/types.go: the field resolvers that read from the repositories. A resolver object around a row
-- is the row; a field that hands on a column is the column.
use ficct_boutique_backend_g.Base.{String, Bool, Option, none, some, List, [], ◌∷◌}
use ficct_boutique_backend_g.Models.{
  Branch, Collection, Product, ProductVariant, Inventory, Sale, SaleItem, Order,
}
use ficct_boutique_backend_g.Store.{Tx, Outcome, ok, err, pure, ◌>>=◌}
use ficct_boutique_backend_g.BranchRepo
use ficct_boutique_backend_g.CatalogRepo.{find_product, find_variant, variants_by_product}
use ficct_boutique_backend_g.CatalogRepo.Batch.{by_variant_ids}
use ficct_boutique_backend_g.SalesRepo

-- ProductResolver.Collection reads nothing, whether the product has a collection or not.
abbrev pub product_collection : Product → Tx (Option Collection)
product_collection p = pure none

unfoldable pub product_variants : (String → String → Bool) → Product → Tx (List ProductVariant)
product_variants collate p = variants_by_product collate p.id

unfoldable pub variant_stock : ProductVariant → Tx (List Inventory)
variant_stock v = do groups ← by_variant_ids (v.id ∷ []); pure (groups v.id)

unfoldable pub entry_branch : Inventory → Tx Branch
entry_branch e = BranchRepo.find e.branch_id

-- `if err != nil { return nil, nil }`
abbrev pub null_if_failed : {A : Type 0} → Outcome A → Outcome (Option A)
null_if_failed (ok a w) = ok (some a) w
null_if_failed (err e w) = ok none w

unfoldable pub entry_variant : Inventory → Tx (Option ProductVariant)
entry_variant e db = null_if_failed (find_variant e.variant_id db)

abbrev pub product_of_variant : Outcome ProductVariant → Outcome (Option Product)
product_of_variant (ok v w) = null_if_failed (find_product v.product_id w)
product_of_variant (err e w) = ok none w

unfoldable pub entry_product : Inventory → Tx (Option Product)
entry_product e db = product_of_variant (find_variant e.variant_id db)

unfoldable pub sale_branch : Sale → Tx Branch
sale_branch s = BranchRepo.find s.branch_id

-- The items are read once: a sale that came with its items has them in `ItemsCache`.
unfoldable pub sale_items : Option (List SaleItem) → Sale → Tx (List SaleItem)
sale_items (some items) s = pure items
sale_items none s = do found ← SalesRepo.find s.id; pure found.1

unfoldable pub order_sale : Order → Tx (Sale × List SaleItem)
order_sale o = SalesRepo.find o.sale_id
