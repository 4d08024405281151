-- ===== src/SalesService/Lines.antt =====
-- The lines of a sale: CreateSale of internal/service/sales_service.go prices the items that it is
-- given, and CreateWithItems of internal/repository/sales.go stores them.
use ficct_boutique_backend_g.Base.{
  append_nil, append_row, ℕ, suc, ◌≡◌, refl, ◌∙◌, sym, ap, subst, false, Option, none, some, List,
  [], ◌∷◌, ◌++◌, ◌==◌, not, find_where, any_where, insert_row, arith, All2,
}
use ficct_boutique_backend_g.Base.Int.{ℤ, pos, ◌≤ℤ◌, leb_ℤ, fits_int32}
use ficct_boutique_backend_g.Float.{Float64Ops}
use ficct_boutique_backend_g.Models.{Uuid, Float64, Product, ProductVariant, SaleItem}
use ficct_boutique_backend_g.Store.{Db, Error, Env, ok, or_fail, wrap}
use ficct_boutique_backend_g.Store.Laws.{
  >>=-eq-ok, ok-injective, fail_if-eq-ok, or_fail-eq-ok, wrap-eq-ok,
}
use ficct_boutique_backend_g.CatalogRepo.{find_variant, find_product}
use ficct_boutique_backend_g.SalesRepo.{insert_sale_item, insert_sale_items}
use ficct_boutique_backend_g.SalesService.{CreateSaleItemInput, unit_price, price_item, price_items}

-- The price of a variant of its own, if it has one, and else that of the product.
abbrev pub IsPrice : Float64 → Option Float64 → Float64 → Type 0
IsPrice base none price = price ≡ base
IsPrice base (some own) price = price ≡ own

unit_price-IsPrice :
    (base : Float64) (own : Option Float64) → IsPrice base own (unit_price base own)
unit_price-IsPrice base none = refl
unit_price-IsPrice base (some own) = refl

-- The line is for the variant and the units asked for, at the price that the catalog gives: the
-- variant's own price if it has one, else that of its product.
pub record IsPriced (F : Float64Ops) (db : Db) (it : CreateSaleItemInput) (line : SaleItem)
    : Type 0 where
  pub variant : ProductVariant
  pub variant_found : find_where (λ v. v.id == it.variant_id) db.variants ≡ some variant
  pub product : Product
  pub product_found : find_where (λ p. p.id == variant.product_id) db.products ≡ some product
  pub of_variant : line.variant_id ≡ it.variant_id
  pub units : line.quantity ≡ it.quantity
  pub price : IsPrice product.base_price variant.price_override line.unit_price
  pub amount : line.line_total ≡ F.mul line.unit_price (F.of_int it.quantity)

row_found :
    {A : Type 0} (a : A) (e : Error) (o : Option A) (db : Db) {w : Db}
    → or_fail e o db ≡ ok a w
    → (o ≡ some a) × (w ≡ db)
row_found a e none db h = absurd (cc)
row_found a e (some x) db h = let (same, left) = ok-injective h in (ap some same, sym left)

price_item-eq-ok :
    (F : Float64Ops) (it : CreateSaleItemInput) (db w : Db) (line : SaleItem)
    → price_item F it db ≡ ok line w
    → IsPriced F db it line × (w ≡ db)
unfolding price_item find_variant find_product
price_item-eq-ok F it db w line h =
    let (v, a, h1, k1) =
      >>=-eq-ok (wrap (Error.of_variant it.variant_id) (find_variant it.variant_id)) _ db h in
    let h2 = wrap-eq-ok (Error.of_variant it.variant_id) (find_variant it.variant_id) db h1 in
    let (v_found, a_same) = row_found _ Error.not_found _ db h2 in
    let (p, b, h3, k2) =
      >>=-eq-ok (wrap (Error.of_product_for_variant it.variant_id) (find_product v.product_id)) _ a
        k1 in
    let h4 =
      wrap-eq-ok (Error.of_product_for_variant it.variant_id) (find_product v.product_id) a h3 in
    let (p_found, b_same) = row_found _ Error.not_found _ a h4 in
    let (same, left) = ok-injective k2 in
    (
      subst (IsPriced F db it) same (record {
        variant = v;
        variant_found = v_found;
        product = p;
        product_found =
            ap (λ (d : Db). find_where (λ p. p.id == v.product_id) d.products) (sym a_same)
            ∙ p_found;
        of_variant = refl;
        units = refl;
        price = unit_price-IsPrice p.base_price v.price_override;
        amount = refl;
      }),
      sym left ∙ (b_same ∙ a_same),
    )

pub price_items-eq-ok :
    (F : Float64Ops) (items : List CreateSaleItemInput) (db w : Db) (lines : List SaleItem)
    → price_items F items db ≡ ok lines w
    → All2 (IsPriced F db) items lines × (w ≡ db)
unfolding price_items
price_items-eq-ok F [] db w lines h =
    let (same, left) = ok-injective h in (subst (All2 (IsPriced F db) []) same tt, sym left)
price_items-eq-ok F (it ∷ items) db w lines h =
    let (line, a, h1, k1) = >>=-eq-ok (price_item F it) _ db h in
    let (first, a_same) = price_item-eq-ok F it db a line h1 in
    let (rest, b, h2, k2) = >>=-eq-ok (price_items F items) _ a k1 in
    let (others, b_same) = price_items-eq-ok F items a b rest h2 in
    let (same, left) = ok-injective k2 in
    (
      subst (All2 (IsPriced F db) (it ∷ items)) same
          (first, subst (λ d. All2 (IsPriced F d) items rest) a_same others),
      sym left ∙ (b_same ∙ a_same),
    )

-- The line as it is stored: of this sale, with the amounts as NUMERIC(12,2) keeps them, and with at
-- least one unit.
pub record IsStored (F : Float64Ops) (sale : Uuid) (line row : SaleItem) : Type 0 where
  pub of_sale : row.sale_id ≡ sale
  pub variant : row.variant_id ≡ line.variant_id
  pub units : row.quantity ≡ line.quantity
  pub sells : pos 1 ≤ℤ row.quantity
  pub price : F.numeric line.unit_price ≡ some row.unit_price
  pub amount : F.numeric line.line_total ≡ some row.line_total

at_least_one : (q : ℤ) → leb_ℤ q (pos 0) ≡ false → pos 1 ≤ℤ q
at_least_one q h = ground arith

insert_sale_item-eq-ok :
    (F : Float64Ops) (env : Env) (k : ℕ) (sale : Uuid) (line row : SaleItem) (db w : Db)
    → insert_sale_item F env k sale line db ≡ ok row w
    → IsStored F sale line row × (w ≡ record db { sale_items = insert_row row db.sale_items })
unfolding insert_sale_item
insert_sale_item-eq-ok F env k sale line row db w h =
    let (_, h1) = fail_if-eq-ok (not (fits_int32 line.quantity)) Error.out_of_range _ db h in
    let (price, price_ok, h2) =
      or_fail-eq-ok Error.out_of_range (F.numeric line.unit_price) _ db h1 in
    let (amount, amount_ok, h3) =
      or_fail-eq-ok Error.out_of_range (F.numeric line.line_total) _ db h2 in
    let (some_unit, h4) =
      fail_if-eq-ok (leb_ℤ line.quantity (pos 0)) Error.check_violation _ db h3 in
    let (_, h5) =
      fail_if-eq-ok (any_where (λ x. x.id == env.uuid k) db.sale_items) Error.unique_violation _ db
        h4 in
    let (_, h6) =
      fail_if-eq-ok (not (any_where (λ v. v.id == line.variant_id) db.variants))
        Error.foreign_key_violation _ db h5 in
    let (same, left) = ok-injective h6 in
    (
      subst (IsStored F sale line) same (record {
        of_sale = refl;
        variant = refl;
        units = refl;
        sells = at_least_one line.quantity some_unit;
        price = price_ok;
        amount = amount_ok;
      }),
      sym left ∙ ap (λ r. record db { sale_items = insert_row r db.sale_items }) same,
    )

pub insert_sale_items-eq-ok :
    (F : Float64Ops) (env : Env) (k : ℕ) (sale : Uuid) (lines rows : List SaleItem) (db w : Db)
    → insert_sale_items F env k sale lines db ≡ ok rows w
    → All2 (IsStored F sale) lines rows × (w ≡ record db { sale_items = db.sale_items ++ rows })
unfolding insert_sale_items
insert_sale_items-eq-ok F env k sale [] rows db w h =
    let (same, left) = ok-injective h in
    (
      subst (All2 (IsStored F sale) []) same tt,
      sym left
          ∙ (ap (λ l. record db { sale_items = l }) (sym (append_nil db.sale_items))
              ∙ ap (λ l. record db { sale_items = db.sale_items ++ l }) same),
    )
insert_sale_items-eq-ok F env k sale (line ∷ lines) rows db w h =
    let (row, a, h1, k1) = >>=-eq-ok (insert_sale_item F env k sale line) _ db h in
    let (first, a_same) = insert_sale_item-eq-ok F env k sale line row db a h1 in
    let (rest, b, h2, k2) = >>=-eq-ok (insert_sale_items F env (suc k) sale lines) _ a k1 in
    let (others, b_same) = insert_sale_items-eq-ok F env (suc k) sale lines rest a b h2 in
    let (same, left) = ok-injective k2 in
    (
      subst (All2 (IsStored F sale) (line ∷ lines)) same (first, others),
      sym left
          ∙ (b_same
              ∙ (ap (λ (d : Db). record d { sale_items = d.sale_items ++ rest }) a_same
                  ∙ (ap (λ l. record db { sale_items = l }) (append_row db.sale_items row rest)
                      ∙ ap (λ l. record db { sale_items = db.sale_items ++ l }) same))),
    )
