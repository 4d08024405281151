-- ===== src/SalesService/Buyer.antt =====
-- Whose sale it is: the customer that CreateSale of internal/service/sales_service.go records for a
-- user, and what a refused CreateSale leaves behind.
use ficct_boutique_backend_g.Base.{
  ◌≡◌, refl, ◌∙◌, sym, ap, subst, true, false, Bool, ◌&&◌, ◌||◌, Option, none, some, List, [], ◌∷◌,
  ◌==◌, ◌++◌, inl, inr, find_where, any_where, arith, Bool-cases, find_where-passes, ==_iff,
  ==_refl, any_where-append, any_where-update_where,
}
use ficct_boutique_backend_g.Float.{Float64Ops, float_zero, tax_rate}
use ficct_boutique_backend_g.Models.{Uuid, ProductVariant, User, Customer, Sale, SaleItem}
use ficct_boutique_backend_g.Store.{Db, Error, Env, ok, fail_if, wrap}
use ficct_boutique_backend_g.Store.Laws.{
  >>=-eq-ok, ok-injective, fail_if-eq-ok, or_fail-eq-ok, in_transaction-eq-ok,
}
use ficct_boutique_backend_g.Store.Atomic.{
  IsReadOnly, IsAtomic, fail_if-IsReadOnly, or_fail-IsReadOnly, wrap-IsReadOnly, >>=-IsReadOnly,
  >>=-IsAtomic, in_transaction-IsAtomic,
}
use ficct_boutique_backend_g.CatalogRepo.{find_variant, find_product}
use ficct_boutique_backend_g.SalesRepo.{
  insert_sale, insert_sale_items, subtotal_from, ensure_customer_for_user, upsert_customer,
  is_some_eq, create_with_items,
}
use ficct_boutique_backend_g.SalesService.{
  CreateSaleInput, CreateSaleItemInput, price_item, price_items, is_empty, sale_customer, save_sale,
  create_sale,
}
use ficct_boutique_backend_g.SalesService.Create.{insert_sale-eq-ok}
use ficct_boutique_backend_g.SalesService.Lines.{insert_sale_items-eq-ok}

price_item-IsReadOnly : (F : Float64Ops) (it : CreateSaleItemInput) → IsReadOnly (price_item F it)
unfolding price_item find_variant find_product
price_item-IsReadOnly F it =
    >>=-IsReadOnly (wrap (Error.of_variant it.variant_id) (find_variant it.variant_id)) _
      (wrap-IsReadOnly _ (find_variant it.variant_id) (
        or_fail-IsReadOnly Error.not_found
          (λ db. find_where (λ v. v.id == it.variant_id) db.variants)))
      (λ (v : ProductVariant).
        >>=-IsReadOnly
          (wrap (Error.of_product_for_variant it.variant_id) (find_product v.product_id)) _
          (wrap-IsReadOnly _ (find_product v.product_id) (
            or_fail-IsReadOnly Error.not_found
              (λ db. find_where (λ p. p.id == v.product_id) db.products)))
          (λ p db. refl))

price_items-IsReadOnly :
    (F : Float64Ops) (items : List CreateSaleItemInput) → IsReadOnly (price_items F items)
unfolding price_items
price_items-IsReadOnly F [] = λ db. refl
price_items-IsReadOnly F (it ∷ items) =
    >>=-IsReadOnly (price_item F it) _ (price_item-IsReadOnly F it) (λ row.
      >>=-IsReadOnly (price_items F items) _ (price_items-IsReadOnly F items) (λ rest db. refl))

-- A sale that cannot be made (no items, an unknown variant, an amount or a quantity that the
-- tables refuse, a missing branch or user, a failed commit that has not taken place) leaves the
-- database as it was.
pub create_sale-IsAtomic :
    (F : Float64Ops) (env : Env) (input : CreateSaleInput)
    → env.lost ≡ false
    → IsAtomic (create_sale F env input)
unfolding create_sale
create_sale-IsAtomic F env input kept =
    >>=-IsAtomic (fail_if (is_empty input.items) Error.empty_sale_items) _ (fail_if-IsReadOnly _ _)
      (λ _.
        >>=-IsAtomic (price_items F input.items) _ (price_items-IsReadOnly F input.items)
          (λ lines. in_transaction-IsAtomic env (save_sale F env input lines) kept))

-- A customer with the identifier `c` belongs to the user.
abbrev pub is_profile_of : Uuid → Uuid → Customer → Bool
is_profile_of user c x = x.id == c && is_some_eq x.user_id user

profile_found :
    (user : Uuid) (rows : List Customer) (row : Customer)
    → find_where (λ c. is_some_eq c.user_id user) rows ≡ some row
    → any_where (is_profile_of user row.id) rows ≡ true
profile_found user [] row h = absurd (cc)
profile_found user (x ∷ xs) row h = elim (Bool-cases (is_some_eq x.user_id user)) [
  | inl hit ↦ ground (arith, ==_refl row.id)
  | inr miss ↦ ground (arith, profile_found user xs row)
]

upsert_customer-links :
    (env : Env) (u : User) (rows : List Customer) (o : Option Customer) (c : Uuid) (db w : Db)
    → find_where (λ x. is_some_eq x.user_id u.id) rows ≡ o
    → upsert_customer env u rows o db ≡ ok c w
    → any_where (is_profile_of u.id c) w.customers ≡ true
upsert_customer-links env u rows (some x) c db w found h =
    let (same, left) = ok-injective h in
    subst (λ (d : Db). any_where (is_profile_of u.id c) d.customers ≡ true) left
      (any_where-update_where (is_profile_of u.id c) (λ c. is_some_eq c.user_id u.id)
          (λ c. record c { updated_at = env.now }) rows (λ _. refl)
        ∙ (ap (λ i. any_where (is_profile_of u.id i) rows) (sym same)
            ∙ profile_found u.id rows x found))
upsert_customer-links env u rows none c db w found h =
    let (_, k) =
      fail_if-eq-ok (any_where (λ c. c.id == env.uuid 0) rows) Error.unique_violation _ db h in
    let (same, left) = ok-injective k in
    subst (λ (d : Db). any_where (is_profile_of u.id c) d.customers ≡ true) left
      (any_where-append (is_profile_of u.id c) rows _
        ∙ new_last (any_where (is_profile_of u.id c) rows) (env.uuid 0) c u.id same)
  where
    new_last : (b : Bool) (i j k : Uuid) → i ≡ j → (b || ((i == j) && (k == k) || false)) ≡ true
    new_last b i j k h = ground arith

ensure_customer-links :
    (env : Env) (user c : Uuid) (db w : Db)
    → ensure_customer_for_user env user db ≡ ok c w
    → any_where (is_profile_of user c) w.customers ≡ true
unfolding ensure_customer_for_user
ensure_customer-links env user c db w h =
    let (u, u_found, k) =
      or_fail-eq-ok Error.not_found (find_where (λ x. x.id == user) db.users) _ db h in
    let same = (==_iff u.id user).0 (find_where-passes (λ x. x.id == user) db.users u u_found).0 in
    subst (λ i. any_where (is_profile_of i c) w.customers ≡ true) same
      (upsert_customer-links env u db.customers _ c db w refl k)

-- The sale is linked to the profile of the user.
abbrev pub IsBoughtBy : Uuid → Sale → Db → Type 0
IsBoughtBy user s w =
    (c : Uuid) × (s.customer_id ≡ some c) × (any_where (is_profile_of user c) w.customers ≡ true)

save_sale-IsBoughtBy :
    (F : Float64Ops) (env : Env) (user : Uuid) (branch : Uuid) (cashier : Option Uuid)
    (items : List CreateSaleItemInput) (lines : List SaleItem) (db w : Db) (s : Sale)
    (rows : List SaleItem)
    → save_sale F env
        (record {
          customer_id = none;
          customer_user_id = some user;
          branch_id = branch;
          cashier_id = cashier;
          items = items;
        })
        lines
        db
      ≡ ok (s, rows) w
    → IsBoughtBy user s w
unfolding save_sale create_with_items
save_sale-IsBoughtBy F env user branch cashier items lines db w s rows h =
    let (o, v, h1, k1) = >>=-eq-ok (sale_customer env none (some user)) _ db h in
    let (c, v', h2, k2) = >>=-eq-ok (ensure_customer_for_user env user) _ db h1 in
    let (o_is, v_is) = ok-injective k2 in
    let subtotal = subtotal_from F float_zero lines in
    let tax = F.mul subtotal tax_rate in
    let (s', x, h3, k3) =
      >>=-eq-ok (insert_sale F env o branch cashier subtotal tax (F.add subtotal tax)) _ v k1 in
    let (is_sale, x_is, _) =
      insert_sale-eq-ok F env o branch cashier subtotal tax (F.add subtotal tax) s' v x h3 in
    let (rows', y, h4, k4) = >>=-eq-ok (insert_sale_items F env 2 s'.id lines) _ x k3 in
    let (_, y_is) = insert_sale_items-eq-ok F env 2 s'.id lines rows' x y h4 in
    let (same, left) = ok-injective k4 in
    (
      c,
      ap (λ (q : Sale × List SaleItem). q.0.customer_id) (sym same) ∙ (is_sale.buyer ∙ sym o_is),
      ap (λ (d : Db). any_where (is_profile_of user c) d.customers)
            (sym left
              ∙ (y_is ∙ ap (λ (d : Db). record d { sale_items = d.sale_items ++ rows' }) x_is))
          ∙ (ap (λ (d : Db). any_where (is_profile_of user c) d.customers) (sym v_is)
              ∙ ensure_customer-links env user c db v' h2),
    )

-- A sale that is made for a user, with no customer named, is linked to a customer profile of that
-- user, which is there afterwards: an old one, or one that is made with the sale.
pub create_sale-IsBoughtBy :
    (F : Float64Ops) (env : Env) (user : Uuid) (branch : Uuid) (cashier : Option Uuid)
    (items : List CreateSaleItemInput) (db w : Db) (s : Sale) (rows : List SaleItem)
    → create_sale F env
        (record {
          customer_id = none;
          customer_user_id = some user;
          branch_id = branch;
          cashier_id = cashier;
          items = items;
        })
        db
      ≡ ok (s, rows) w
    → IsBoughtBy user s w
unfolding create_sale
create_sale-IsBoughtBy F env user branch cashier items db w s rows h =
    let (_, k) = fail_if-eq-ok (is_empty items) Error.empty_sale_items _ db h in
    let (lines, v, _, k1) = >>=-eq-ok (price_items F items) _ db k in
    let (body, _, _) = in_transaction-eq-ok env _ v k1 in
    save_sale-IsBoughtBy F env user branch cashier items lines v w s rows body
