-- ===== src/CatalogRepo/Batch.antt =====
-- VariantsByProductIDs of internal/repository/catalog.go and ByVariantIDs of
-- internal/repository/inventory.go: the reads of several keys at once. A map is a function; a key
-- that is not in it has no rows.
pub mod Agree
use ficct_boutique_backend_g.Base.{
  ℕ, String, Bool, true, false, ◌&&◌, List, [], ◌∷◌, ◌==◌, leb, ltb, if◌then◌else◌, any_where,
  select_where, order_by, group_by,
}
use ficct_boutique_backend_g.Models.{Uuid, ProductVariant, Inventory}
use ficct_boutique_backend_g.Store.{Db, Tx, gets, pure}
use ficct_boutique_backend_g.CatalogRepo.{size_color_before}

-- = ANY($1)
abbrev pub is_any_of : List Uuid → Uuid → Bool
is_any_of ids id = any_where (λ x. x == id) ids

-- ORDER BY product_id, size, color
abbrev pub product_size_color_before :
    (String → String → Bool) → ProductVariant → ProductVariant → Bool
product_size_color_before collate x y =
    if ltb x.product_id y.product_id
    then true
    else if ltb y.product_id x.product_id
    then false
    else size_color_before collate x y

abbrev pub variants_of_products : (String → String → Bool) → List Uuid → Db → List ProductVariant
variants_of_products collate ids db =
    order_by (product_size_color_before collate)
      (select_where (λ v. is_any_of ids v.product_id) db.variants)

unfoldable pub variants_by_product_ids :
    (String → String → Bool) → List Uuid → Tx (Uuid → List ProductVariant)
variants_by_product_ids collate [] = pure (λ id. [])
variants_by_product_ids collate (id ∷ ids) =
    gets (λ db. group_by (λ v. v.product_id) (variants_of_products collate (id ∷ ids) db))

unfoldable pub by_variant_ids : List Uuid → Tx (Uuid → List Inventory)
by_variant_ids [] = pure (λ id. [])
by_variant_ids (id ∷ ids) = gets (λ db.
    group_by (λ i. i.variant_id)
      (select_where (λ i. is_any_of (id ∷ ids) i.variant_id) db.inventory))
