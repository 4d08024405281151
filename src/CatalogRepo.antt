-- ===== src/CatalogRepo.antt =====
-- internal/repository/catalog.go: collections, products and variants. ILIKE and the collation of
-- ORDER BY on texts are the database's, and are arguments of the queries that use them.
pub mod Decimal
pub mod Batch
use ficct_boutique_backend_g.Base.{
  Bool, true, false, String, Option, none, some, List, [], ◌∷◌, ◌&&◌, ◌||◌, not, ◌==◌,
  if◌then◌else◌, find_where, select_where, any_where, update_where, insert_row, order_by, leb,
  str_eq,
}
use ficct_boutique_backend_g.Base.Int.{ℤ}
use ficct_boutique_backend_g.Models.{Uuid, Float64, Collection, Product, ProductVariant}
use ficct_boutique_backend_g.Float.{Float64Ops}
use ficct_boutique_backend_g.SalesRepo.{links_to, to_numeric}
use ficct_boutique_backend_g.Store.{
  Db, Error, Tx, Env, ok, err, pure, ◌>>=◌, ◌>>◌, gets, fail_if, or_fail, in_transaction,
  check_page, page,
}

abbrev pub put_collections : List Collection → Tx (Unit {0})
put_collections rows db = ok tt (record db { collections = rows })

abbrev pub put_products : List Product → Tx (Unit {0})
put_products rows db = ok tt (record db { products = rows })

abbrev pub put_variants : List ProductVariant → Tx (Unit {0})
put_variants rows db = ok tt (record db { variants = rows })

unfoldable pub create_collection : Env → String → Option String → Option String → Tx Collection
create_collection env name description season = do
  rows ← gets (λ db. db.collections)
  fail_if (any_where (λ c. c.id == env.uuid 0 || str_eq c.name name) rows) Error.unique_violation
  let c : Collection = record {
    id = env.uuid 0;
    name = name;
    description = description;
    season = season;
    is_active = true;
    created_at = env.now;
    updated_at = env.now;
  }
  put_collections (insert_row c rows)
  pure c

unfoldable pub list_collections : Tx (List Collection)
list_collections = gets (λ db.
    order_by (λ x y. leb y.created_at x.created_at)
      (select_where (λ c. c.is_active) db.collections))

-- The fields that the caller gives for a new product.
pub record NewProduct : Type 0 where
  pub collection_id : Option Uuid
  pub sku : String
  pub name : String
  pub description : Option String
  pub category : String
  pub base_price : Float64
  pub currency : String
  pub image_url : Option String
  pub image_document_id : Option Uuid

unfoldable pub create_product : Float64Ops → Env → NewProduct → Tx Product
create_product F env p = do
  base_price' ← to_numeric F p.base_price
  rows ← gets (λ db. db.products)
  fail_if (any_where (λ x. x.id == env.uuid 0 || str_eq x.sku p.sku) rows) Error.unique_violation
  linked ← gets (λ db. links_to p.collection_id (λ u. any_where (λ c. c.id == u) db.collections))
  fail_if (not linked) Error.foreign_key_violation
  let row : Product = record {
    id = env.uuid 0;
    collection_id = p.collection_id;
    sku = p.sku;
    name = p.name;
    description = p.description;
    category = p.category;
    base_price = base_price';
    currency = p.currency;
    image_url = p.image_url;
    image_document_id = p.image_document_id;
    is_active = true;
    created_at = env.now;
    updated_at = env.now;
    image_replaced_at = none;
  }
  put_products (insert_row row rows)
  pure row

-- UPDATE products SET … WHERE id = $1 RETURNING …; no row is ErrNotFound.
unfoldable pub set_product : Uuid → (Product → Product) → Tx Product
set_product id set = do
  rows ← gets (λ db. db.products)
  row ← or_fail Error.not_found (find_where (λ p. p.id == id) rows)
  put_products (update_where (λ p. p.id == id) set rows)
  pure (set row)

pub record ProductChange : Type 0 where
  pub name : String
  pub description : Option String
  pub category : String
  pub base_price : Float64
  pub image_url : Option String
  pub image_document_id : Option Uuid
  pub is_active : Bool

unfoldable pub update_product : Float64Ops → Env → Uuid → ProductChange → Tx Product
unfolding set_product
update_product F env id c = do
  rows ← gets (λ db. db.products)
  or_fail Error.not_found (find_where (λ p. p.id == id) rows)
  base_price' ← to_numeric F c.base_price
  set_product id (λ p. record p {
    name = c.name;
    description = c.description;
    category = c.category;
    base_price = base_price';
    image_url = c.image_url;
    image_document_id = c.image_document_id;
    is_active = c.is_active;
    updated_at = env.now;
  })

unfoldable pub set_product_active : Env → Uuid → Bool → Tx Product
unfolding set_product
set_product_active env id active =
    set_product id (λ p. record p { is_active = active; updated_at = env.now })

-- The product with the new image, and the document that it had before.
unfoldable pub replace_product_image : Env → Uuid → Uuid → Tx (Product × Option Uuid)
unfolding set_product
replace_product_image env id doc = in_transaction env (do
  rows ← gets (λ db. db.products)
  old ← or_fail Error.not_found (find_where (λ p. p.id == id) rows)
  out ← set_product id (λ p. record p {
    image_document_id = some doc;
    image_replaced_at = some env.now;
    updated_at = env.now;
  })
  pure (out, old.image_document_id))

unfoldable pub set_variant_active : Env → Uuid → Bool → Tx ProductVariant
set_variant_active env id active = do
  rows ← gets (λ db. db.variants)
  row ← or_fail Error.not_found (find_where (λ v. v.id == id) rows)
  let set : ProductVariant → ProductVariant =
      λ v. record v { is_active = active; updated_at = env.now }
  put_variants (update_where (λ v. v.id == id) set rows)
  pure (set row)

unfoldable pub find_product : Uuid → Tx Product
find_product id db = or_fail Error.not_found (find_where (λ p. p.id == id) db.products) db

-- A condition on an optional text argument: nil and "" set none.
abbrev pub given : Option String → (String → Bool) → Bool
given none test = true
given (some s) test = str_eq s "" || test s

-- The rows that ListProducts pages through; `ilike x s` is x ILIKE '%' || s || '%'.
unfoldable pub listed_products :
    (String → String → Bool) → Option String → Option String → Bool → Db → List Product
listed_products ilike category search include_inactive db =
    order_by (λ x y. leb y.created_at x.created_at)
      (select_where
        (λ p.
          (include_inactive || p.is_active)
          && (given category (str_eq p.category)
              && given search (λ s. ilike p.name s || ilike p.sku s)))
        db.products)

unfoldable pub list_products :
    (String → String → Bool) → Option String → Option String → Bool → ℤ → ℤ → Tx (List Product)
unfolding listed_products
list_products ilike category search include_inactive limit offset = do
  check_page limit offset
  rows ← gets (listed_products ilike category search include_inactive)
  pure (page limit offset rows)

pub record NewVariant : Type 0 where
  pub product_id : Uuid
  pub sku : String
  pub size : String
  pub color : String
  pub price_override : Option Float64

abbrev pub optional_numeric : Float64Ops → Option Float64 → Tx (Option Float64)
optional_numeric F none = pure none
optional_numeric F (some x) = do x' ← to_numeric F x; pure (some x')

-- A row that a unique constraint of product_variants keeps the new one from joining.
abbrev pub variant_clash : Uuid → NewVariant → ProductVariant → Bool
variant_clash id v x =
    x.id == id
    || (str_eq x.sku v.sku
        || (x.product_id == v.product_id && (str_eq x.size v.size && str_eq x.color v.color)))

unfoldable pub create_variant : Float64Ops → Env → NewVariant → Tx ProductVariant
create_variant F env v = do
  price_override' ← optional_numeric F v.price_override
  rows ← gets (λ db. db.variants)
  fail_if (any_where (variant_clash (env.uuid 0) v) rows) Error.unique_violation
  linked ← gets (λ db. any_where (λ p. p.id == v.product_id) db.products)
  fail_if (not linked) Error.foreign_key_violation
  let row : ProductVariant = record {
    id = env.uuid 0;
    product_id = v.product_id;
    sku = v.sku;
    size = v.size;
    color = v.color;
    price_override = price_override';
    is_active = true;
    created_at = env.now;
    updated_at = env.now;
  }
  put_variants (insert_row row rows)
  pure row

unfoldable pub find_variant : Uuid → Tx ProductVariant
find_variant id db = or_fail Error.not_found (find_where (λ v. v.id == id) db.variants) db

-- ORDER BY size, color under the collation `collate`, read as "does not stand behind".
abbrev pub size_color_before : (String → String → Bool) → ProductVariant → ProductVariant → Bool
size_color_before collate x y =
    if collate x.size y.size
    then (if collate y.size x.size then collate x.color y.color else true)
    else false

unfoldable pub variants_by_product : (String → String → Bool) → Uuid → Tx (List ProductVariant)
variants_by_product collate product = gets (λ db.
    order_by (size_color_before collate) (select_where (λ v. v.product_id == product) db.variants))
