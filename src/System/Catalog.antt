-- ===== src/System/Catalog.antt =====
-- internal/repository/catalog.go and branches.go, seen from the table `inventory`.
use ficct_boutique_backend_g.Base.{String, Option, none, some, List, Bool, find_where, ◌==◌}
use ficct_boutique_backend_g.Models.{Uuid, Inventory, Float64, Product}
use ficct_boutique_backend_g.Float.{Float64Ops}
use ficct_boutique_backend_g.Store.{Env, Error}
use ficct_boutique_backend_g.Store.Keeps.{
  Keeps, >>=-Keeps, fail_if-Keeps, or_fail-Keeps, in_transaction-Keeps,
}
use ficct_boutique_backend_g.CatalogRepo
use ficct_boutique_backend_g.CatalogRepo.{NewProduct, NewVariant, ProductChange}
use ficct_boutique_backend_g.CatalogService
use ficct_boutique_backend_g.BranchRepo
use ficct_boutique_backend_g.BranchRepo.{NewBranch}

module _ (P : List Inventory → Type 0) where
  pub create_branch-Keeps : (env : Env) (b : NewBranch) → Keeps P (BranchRepo.create env b)
  unfolding BranchRepo.create
  create_branch-Keeps env b db p = search (fail_if-Keeps P, p)

  pub create_collection-Keeps :
      (env : Env) (name : String) (d s : Option String)
      → Keeps P (CatalogRepo.create_collection env name d s)
  unfolding CatalogRepo.create_collection
  create_collection-Keeps env name d s db p = search (fail_if-Keeps P, p)

  pub create_product-Keeps :
      (F : Float64Ops) (env : Env) (input : NewProduct)
      → Keeps P (CatalogService.create_product F env input)
  unfolding CatalogService.create_product CatalogRepo.create_product
  create_product-Keeps F env input db p = search (fail_if-Keeps P, or_fail-Keeps P, p)

  optional_numeric-Keeps :
      (F : Float64Ops) (price : Option Float64) → Keeps P (CatalogRepo.optional_numeric F price)
  optional_numeric-Keeps F none db p = p
  optional_numeric-Keeps F (some x) db p = search (or_fail-Keeps P, p)

  insert_variant-Keeps :
      (F : Float64Ops) (env : Env) (input : NewVariant)
      → Keeps P (CatalogRepo.create_variant F env input)
  unfolding CatalogRepo.create_variant
  insert_variant-Keeps F env input =
      >>=-Keeps P (CatalogRepo.optional_numeric F input.price_override) _
        (optional_numeric-Keeps F input.price_override) λ price db p. search (fail_if-Keeps P, p)

  pub create_variant-Keeps :
      (F : Float64Ops) (env : Env) (input : NewVariant)
      → Keeps P (CatalogService.create_variant F env input)
  unfolding CatalogService.create_variant
  create_variant-Keeps F env input db p = search (fail_if-Keeps P, insert_variant-Keeps F env, p)

  pub set_variant_active-Keeps :
      (env : Env) (id : Uuid) (b : Bool) → Keeps P (CatalogRepo.set_variant_active env id b)
  unfolding CatalogRepo.set_variant_active
  set_variant_active-Keeps env id b db p =
      or_fail-Keeps P Error.not_found (find_where (λ v. v.id == id) db.variants) _ (λ row d q. q) db
        p

  set_product-Keeps :
      (id : Uuid) (set : Product → Product) → Keeps P (CatalogRepo.set_product id set)
  unfolding CatalogRepo.set_product
  set_product-Keeps id set db p =
      or_fail-Keeps P Error.not_found (find_where (λ p. p.id == id) db.products) _ (λ row d q. q) db
        p

  pub update_product-Keeps :
      (F : Float64Ops) (env : Env) (id : Uuid) (c : ProductChange)
      → Keeps P (CatalogRepo.update_product F env id c)
  unfolding CatalogRepo.update_product
  update_product-Keeps F env id c db p =
      or_fail-Keeps P Error.not_found (find_where (λ p. p.id == id) db.products) _
        (λ row.
          or_fail-Keeps P Error.out_of_range (F.numeric c.base_price) _
            λ price. set_product-Keeps id _)
        db p

  pub set_product_active-Keeps :
      (env : Env) (id : Uuid) (b : Bool) → Keeps P (CatalogRepo.set_product_active env id b)
  unfolding CatalogRepo.set_product_active
  set_product_active-Keeps env id b = set_product-Keeps id _

  pub replace_product_image-Keeps :
      (env : Env) (id doc : Uuid) → Keeps P (CatalogRepo.replace_product_image env id doc)
  unfolding CatalogRepo.replace_product_image
  replace_product_image-Keeps env id doc = in_transaction-Keeps P env _ λ db p.
      or_fail-Keeps P Error.not_found (find_where (λ p. p.id == id) db.products) _
        (λ old. >>=-Keeps P (CatalogRepo.set_product id _) _ (set_product-Keeps id _) λ out d q. q)
        db p
