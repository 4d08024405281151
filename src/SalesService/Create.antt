-- ===== src/SalesService/Create.antt =====
-- What CreateSale of internal/service/sales_service.go makes of the items that it is given, and of
-- the catalog.
use ficct_boutique_backend_g.Base.{
  ◌≡◌, refl, ◌∙◌, sym, ap, subst, false, Option, none, some, List, ◌++◌, ◌==◌, not, find_where,
  any_where, insert_row, All2, [], ◌∷◌, map, ◌⊎◌, inl, inr, update_where,
}
use ficct_boutique_backend_g.Float.{Float64Ops, float_zero, tax_rate}
use ficct_boutique_backend_g.Models.{Uuid, User, Customer, Float64, Sale, SaleItem, SaleStatus}
use ficct_boutique_backend_g.Store.{Db, Error, Env, ok}
use ficct_boutique_backend_g.Store.Laws.{
  >>=-eq-ok, ok-injective, fail_if-eq-ok, or_fail-eq-ok, in_transaction-eq-ok,
}
use ficct_boutique_backend_g.SalesRepo.{
  ensure_customer_for_user, subtotal_from, insert_sale, insert_sale_items, create_with_items,
  sale_links, upsert_customer, is_some_eq, new_customer,
}
use ficct_boutique_backend_g.SalesService.{
  CreateSaleInput, price_items, is_empty, sale_customer, save_sale, create_sale,
}
use ficct_boutique_backend_g.SalesService.Lines.{
  IsPriced, price_items-eq-ok, IsStored, insert_sale_items-eq-ok,
}

-- The sale as it is stored.
pub record IsSaleOf (F : Float64Ops) (env : Env) (customer : Option Uuid) (branch : Uuid)
    (cashier : Option Uuid) (subtotal tax total : Float64) (s : Sale) : Type 0 where
  pub buyer : s.customer_id ≡ customer
  pub at_branch : s.branch_id ≡ branch
  pub sold_by : s.cashier_id ≡ cashier
  pub waits : s.status ≡ SaleStatus.pending
  pub unconfirmed : s.confirmed_at ≡ none
  pub subtotal_is : F.numeric subtotal ≡ some s.subtotal
  pub tax_is : F.numeric tax ≡ some s.tax
  pub total_is : F.numeric total ≡ some s.total
  pub created : s.created_at ≡ env.now

pub insert_sale-eq-ok :
    (F : Float64Ops) (env : Env) (customer : Option Uuid) (branch : Uuid) (cashier : Option Uuid)
    (subtotal tax total : Float64) (s : Sale) (db w : Db)
    → insert_sale F env customer branch cashier subtotal tax total db ≡ ok s w
    → IsSaleOf F env customer branch cashier subtotal tax total s
      × (w ≡ record db { sales = insert_row s db.sales })
      × (any_where (λ x. x.id == s.id) db.sales ≡ false)
unfolding insert_sale
insert_sale-eq-ok F env customer branch cashier subtotal tax total s db w h =
    let (a, a_ok, h1) = or_fail-eq-ok Error.out_of_range (F.numeric subtotal) _ db h in
    let (b, b_ok, h2) = or_fail-eq-ok Error.out_of_range (F.numeric tax) _ db h1 in
    let (c, c_ok, h3) = or_fail-eq-ok Error.out_of_range (F.numeric total) _ db h2 in
    let (fresh, h4) =
      fail_if-eq-ok (any_where (λ s. s.id == env.uuid 1) db.sales) Error.unique_violation _ db h3 in
    let (_, h5) =
      fail_if-eq-ok (not (sale_links customer branch cashier db)) Error.foreign_key_violation _ db
        h4 in
    let (same, left) = ok-injective h5 in
    (
      subst (IsSaleOf F env customer branch cashier subtotal tax total) same (record {
        buyer = refl;
        at_branch = refl;
        sold_by = refl;
        waits = refl;
        unconfirmed = refl;
        subtotal_is = a_ok;
        tax_is = b_ok;
        total_is = c_ok;
        created = refl;
      }),
      sym left ∙ ap (λ r. record db { sales = insert_row r db.sales }) same,
      ap (λ (r : Sale). any_where (λ x. x.id == r.id) db.sales) (sym same) ∙ fresh,
    )

-- The profile of a user: one that is there has its time renewed, and where there is none it is made
-- of the user's row.
abbrev pub IsProfiled : Env → User → List Customer → List Customer → Type 0
IsProfiled env u rows left =
    ((c : Customer) × (find_where (λ x. is_some_eq x.user_id u.id) rows ≡ some c)
      × (left
          ≡ update_where (λ x. is_some_eq x.user_id u.id) (λ x. record x { updated_at = env.now })
              rows))
    ⊎ ((find_where (λ x. is_some_eq x.user_id u.id) rows ≡ none)
        × (left ≡ insert_row (new_customer env u) rows))

-- The customers after the sale: only one that is made for a user touches them.
abbrev pub CustomersAs : Env → Option Uuid → Option Uuid → Db → List Customer → Type 0
CustomersAs env (some c) user db left = left ≡ db.customers
CustomersAs env none none db left = left ≡ db.customers
CustomersAs env none (some user) db left =
    (u : User) × (find_where (λ x. x.id == user) db.users ≡ some u)
    × IsProfiled env u db.customers left

upsert_customer-frame :
    (env : Env) (u : User) (rows : List Customer) (o : Option Customer) (c : Uuid) (db w : Db)
    → find_where (λ x. is_some_eq x.user_id u.id) rows ≡ o
    → upsert_customer env u rows o db ≡ ok c w
    → (left : List Customer) × IsProfiled env u rows left × (w ≡ record db { customers = left })
upsert_customer-frame env u rows (some x) c db w found h =
    (_, inl (x, found, refl), sym (ok-injective h).1)
upsert_customer-frame env u rows none c db w found h =
    let (_, k) =
      fail_if-eq-ok (any_where (λ c. c.id == env.uuid 0) rows) Error.unique_violation _ db h in
    (_, inr (found, refl), sym (ok-injective k).1)

-- Finding the customer of a user may add a row to the customers, and touches nothing else.
ensure_customer-frame :
    (env : Env) (user c : Uuid) (db w : Db)
    → ensure_customer_for_user env user db ≡ ok c w
    → (rows : List Customer) × CustomersAs env none (some user) db rows
      × (w ≡ record db { customers = rows })
unfolding ensure_customer_for_user
ensure_customer-frame env user c db w h =
    let (u, found, k) =
      or_fail-eq-ok Error.not_found (find_where (λ x. x.id == user) db.users) _ db h in
    let (rows, profiled, same) = upsert_customer-frame env u db.customers _ c db w refl k in
    (rows, (u, found, profiled), same)

sale_customer-frame :
    (env : Env) (customer user c : Option Uuid) (db w : Db)
    → sale_customer env customer user db ≡ ok c w
    → (rows : List Customer) × CustomersAs env customer user db rows
      × (w ≡ record db { customers = rows })
sale_customer-frame env (some c) user r db w h = (db.customers, refl, sym (ok-injective h).1)
sale_customer-frame env none none r db w h = (db.customers, refl, sym (ok-injective h).1)
sale_customer-frame env none (some u) r db w h =
    let (c, v, h1, k1) = >>=-eq-ok (ensure_customer_for_user env u) _ db h in
    let (rows, profiled, same) = ensure_customer-frame env u c db v h1 in
    (rows, profiled, sym (ok-injective k1).1 ∙ same)

-- The sum of some amounts, from the first on.
abbrev pub sum_from : Float64Ops → Float64 → List Float64 → Float64
sum_from F acc [] = acc
sum_from F acc (x ∷ xs) = sum_from F (F.add acc x) xs

subtotal_from-sum :
    (F : Float64Ops) (acc : Float64) (lines : List SaleItem)
    → subtotal_from F acc lines ≡ sum_from F acc (map (λ l. l.line_total) lines)
unfolding subtotal_from
subtotal_from-sum F acc [] = refl
subtotal_from-sum F acc (l ∷ lines) = subtotal_from-sum F (F.add acc l.line_total) lines

-- A sale that CreateSale has made from its input.
pub record Created (F : Float64Ops) (env : Env) (input : CreateSaleInput) (db w : Db) (s : Sale)
    (rows : List SaleItem) : Type 0 where
  pub asked : is_empty input.items ≡ false
  -- The lines at the catalog's prices, and as they are stored.
  pub lines : List SaleItem
  pub at_prices : All2 (IsPriced F db) input.items lines
  pub as_stored : All2 (IsStored F s.id) lines rows
  -- The amounts of the sale are those of its lines.
  pub customer : Option Uuid
  pub amounts :
      let subtotal = sum_from F float_zero (map (λ l. l.line_total) lines) in
      let tax = F.mul subtotal tax_rate in
      IsSaleOf F env customer input.branch_id input.cashier_id subtotal tax (F.add subtotal tax) s
  -- Nothing else changes, but for the profile of the buyer.
  pub customers : List Customer
  pub profile : CustomersAs env input.customer_id input.customer_user_id db customers
  pub fresh : any_where (λ x. x.id == s.id) db.sales ≡ false
  pub leaves : w ≡ record db {
    customers = customers;
    sales = insert_row s db.sales;
    sale_items = db.sale_items ++ rows;
  }

save_sale-Created :
    (F : Float64Ops) (env : Env) (input : CreateSaleInput) (lines : List SaleItem) (db w : Db)
    (s : Sale) (rows : List SaleItem)
    → is_empty input.items ≡ false
    → All2 (IsPriced F db) input.items lines
    → save_sale F env input lines db ≡ ok (s, rows) w
    → Created F env input db w s rows
unfolding save_sale create_with_items
save_sale-Created F env input lines db w s rows asked at_prices h =
    let (c, v, h1, k1) =
      >>=-eq-ok (sale_customer env input.customer_id input.customer_user_id) _ db h in
    let (customers, profile, v_same) =
      sale_customer-frame env input.customer_id input.customer_user_id c db v h1 in
    let subtotal = subtotal_from F float_zero lines in
    let tax = F.mul subtotal tax_rate in
    let (s', x, h2, k2) =
      >>=-eq-ok
        (insert_sale F env c input.branch_id input.cashier_id subtotal tax (F.add subtotal tax)) _ v
        k1 in
    let (is_sale, x_same, fresh) =
      insert_sale-eq-ok F env c input.branch_id input.cashier_id subtotal tax (F.add subtotal tax)
        s' v x h2 in
    let (rows', y, h3, k3) = >>=-eq-ok (insert_sale_items F env 2 s'.id lines) _ x k2 in
    let (stored, y_same) = insert_sale_items-eq-ok F env 2 s'.id lines rows' x y h3 in
    let (same, left) = ok-injective k3 in
    subst (λ (q : Sale × List SaleItem). Created F env input db w q.0 q.1) same
      (record {
        asked = asked;
        lines = lines;
        at_prices = at_prices;
        as_stored = stored;
        customer = c;
        amounts =
            subst
              (λ n.
                IsSaleOf F env c input.branch_id input.cashier_id n (F.mul n tax_rate)
                  (F.add n (F.mul n tax_rate)) s')
              (subtotal_from-sum F float_zero lines) is_sale;
        customers = customers;
        profile = profile;
        fresh = ap (λ (d : Db). any_where (λ x. x.id == s'.id) d.sales) (sym v_same) ∙ fresh;
        leaves =
            sym left
            ∙ (y_same
                ∙ (ap (λ (d : Db). record d { sale_items = d.sale_items ++ rows' }) x_same
                    ∙ ap
                        (λ (d : Db). record d {
                          sales = insert_row s' d.sales;
                          sale_items = d.sale_items ++ rows';
                        })
                        v_same));
      })

-- A sale that is made: there was at least one item; each line is for the variant and the units
-- asked for, at least one, at the catalog's price, the variant's own before that of its product;
-- the sale is pending, at the branch and by the cashier of the input, its subtotal is the sum of
-- the lines, its tax 13 per cent of that and its total the two together, each as NUMERIC(12,2)
-- keeps it; the customers are the same, or, where the sale is made for a user, the same but for that
-- user's profile, renewed or made; and nothing else is changed: neither stock nor orders nor the
-- outbox.
pub create_sale-Created :
    (F : Float64Ops) (env : Env) (input : CreateSaleInput) (db w : Db) (s : Sale)
    (rows : List SaleItem)
    → create_sale F env input db ≡ ok (s, rows) w
    → Created F env input db w s rows
unfolding create_sale
create_sale-Created F env input db w s rows h =
    let (asked, k) = fail_if-eq-ok (is_empty input.items) Error.empty_sale_items _ db h in
    let (lines, v, h1, k1) = >>=-eq-ok (price_items F input.items) _ db k in
    let (at_prices, same) = price_items-eq-ok F input.items db v lines h1 in
    let (body, _, _) = in_transaction-eq-ok env (save_sale F env input lines) v k1 in
    save_sale-Created F env input lines db w s rows asked at_prices
      (ap (save_sale F env input lines) (sym same) ∙ body)
