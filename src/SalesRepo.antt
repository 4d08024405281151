-- ===== src/SalesRepo.antt =====
-- internal/repository/sales.go: sales, their items and the customer profiles behind them.
pub mod Listing
use ficct_boutique_backend_g.Base.{
  ℕ, suc, Bool, true, false, String, Option, none, some, List, [], ◌∷◌, ◌&&◌, not, ◌==◌,
  if◌then◌else◌, find_where, select_where, any_where, update_where, insert_row, order_by, leb,
  str_eq,
}
use ficct_boutique_backend_g.Base.Int.{pos, leb_ℤ, fits_int32}
use ficct_boutique_backend_g.Models.{
  Uuid, Float64, User, Customer, SaleStatus, is_pending, Sale, SaleItem,
}
use ficct_boutique_backend_g.Float.{Float64Ops, float_zero, tax_rate}
use ficct_boutique_backend_g.Store.{
  Db, Error, Tx, Env, ok, err, pure, ◌>>=◌, ◌>>◌, gets, fail_if, or_fail,
}

-- `x = $1` on a nullable column.
abbrev pub is_some_eq : Option Uuid → Uuid → Bool
is_some_eq none u = false
is_some_eq (some x) u = x == u

abbrev pub put_customers : List Customer → Tx (Unit {0})
put_customers rows db = ok tt (record db { customers = rows })

abbrev pub put_sales : List Sale → Tx (Unit {0})
put_sales rows db = ok tt (record db { sales = rows })

abbrev pub put_sale_items : List SaleItem → Tx (Unit {0})
put_sale_items rows db = ok tt (record db { sale_items = rows })

abbrev pub new_customer : Env → User → Customer
new_customer env u = record {
  id = env.uuid 0;
  user_id = some u.id;
  full_name = u.full_name;
  phone = none;
  document_id = none;
  address = none;
  created_at = env.now;
  updated_at = env.now;
}

-- The two branches of ON CONFLICT (user_id) DO UPDATE … RETURNING id; the new row's identifier is
-- the first that the call draws.
abbrev pub upsert_customer : Env → User → List Customer → Option Customer → Tx Uuid
upsert_customer env u rows (some c) =
    put_customers
      (update_where (λ c. is_some_eq c.user_id u.id) (λ c. record c { updated_at = env.now }) rows)
    >> pure c.id
upsert_customer env u rows none =
    fail_if (any_where (λ c. c.id == env.uuid 0) rows) Error.unique_violation
    >> (put_customers (insert_row (new_customer env u) rows) >> pure (env.uuid 0))

-- INSERT INTO customers … SELECT … FROM users WHERE id = $1 ON CONFLICT …; where there is no such
-- user, no row comes back.
unfoldable pub ensure_customer_for_user : Env → Uuid → Tx Uuid
ensure_customer_for_user env user = do
  u ← (λ db. or_fail Error.not_found (find_where (λ x. x.id == user) db.users) db)
  rows ← gets (λ db. db.customers)
  upsert_customer env u rows (find_where (λ c. is_some_eq c.user_id u.id) rows)

-- SELECT c.user_id FROM sales s JOIN customers c ON c.id = s.customer_id WHERE s.id = $1 …
abbrev pub owner_of_customer : List Customer → Option Uuid → Option Uuid
owner_of_customer cs none = none
owner_of_customer cs (some c) = elim (find_where (λ x. x.id == c) cs) [
  | none ↦ none
  | some row ↦ row.user_id
]

abbrev pub owner_of_sale : List Customer → Option Sale → Option Uuid
owner_of_sale cs none = none
owner_of_sale cs (some s) = owner_of_customer cs s.customer_id

unfoldable pub owner_user_id : Uuid → Tx Uuid
owner_user_id sale db =
    or_fail Error.not_found (owner_of_sale db.customers (find_where (λ s. s.id == sale) db.sales))
      db

-- `subtotal += it.LineTotal`
unfoldable pub subtotal_from : Float64Ops → Float64 → List SaleItem → Float64
subtotal_from F acc [] = acc
subtotal_from F acc (it ∷ items) = subtotal_from F (F.add acc it.line_total) items

-- A NUMERIC(12,2) column.
abbrev pub to_numeric : Float64Ops → Float64 → Tx Float64
to_numeric F x = or_fail Error.out_of_range (F.numeric x)

-- A nullable foreign key.
abbrev pub links_to : Option Uuid → (Uuid → Bool) → Bool
links_to none test = true
links_to (some u) test = test u

abbrev pub sale_links : Option Uuid → Uuid → Option Uuid → Db → Bool
sale_links customer branch cashier db =
    links_to customer (λ u. any_where (λ x. x.id == u) db.customers)
    && (any_where (λ x. x.id == branch) db.branches
        && links_to cashier (λ u. any_where (λ x. x.id == u) db.users))

-- INSERT INTO sales … RETURNING …; the sale's identifier is the second that the call draws.
unfoldable pub insert_sale :
    Float64Ops → Env → Option Uuid → Uuid → Option Uuid → Float64 → Float64 → Float64 → Tx Sale
insert_sale F env customer branch cashier subtotal tax total = do
  subtotal' ← to_numeric F subtotal
  tax' ← to_numeric F tax
  total' ← to_numeric F total
  rows ← gets (λ db. db.sales)
  fail_if (any_where (λ s. s.id == env.uuid 1) rows) Error.unique_violation
  linked ← gets (sale_links customer branch cashier)
  fail_if (not linked) Error.foreign_key_violation
  let sale : Sale = record {
    id = env.uuid 1;
    customer_id = customer;
    branch_id = branch;
    cashier_id = cashier;
    status = SaleStatus.pending;
    subtotal = subtotal';
    tax = tax';
    total = total';
    currency = "BOB";
    confirmed_at = none;
    created_at = env.now;
    updated_at = env.now;
  }
  put_sales (insert_row sale rows)
  pure sale

-- INSERT INTO sale_items … RETURNING …, with CHECK (quantity > 0).
unfoldable pub insert_sale_item : Float64Ops → Env → ℕ → Uuid → SaleItem → Tx SaleItem
insert_sale_item F env k sale it = do
  fail_if (not (fits_int32 it.quantity)) Error.out_of_range
  unit_price' ← to_numeric F it.unit_price
  line_total' ← to_numeric F it.line_total
  fail_if (leb_ℤ it.quantity (pos 0)) Error.check_violation
  rows ← gets (λ db. db.sale_items)
  fail_if (any_where (λ x. x.id == env.uuid k) rows) Error.unique_violation
  linked ← gets (λ db. any_where (λ v. v.id == it.variant_id) db.variants)
  fail_if (not linked) Error.foreign_key_violation
  let row : SaleItem = record {
    id = env.uuid k;
    sale_id = sale;
    variant_id = it.variant_id;
    quantity = it.quantity;
    unit_price = unit_price';
    line_total = line_total';
    created_at = env.now;
  }
  put_sale_items (insert_row row rows)
  pure row

-- The loop over the items; the identifiers are drawn from the k-th on.
unfoldable pub insert_sale_items : Float64Ops → Env → ℕ → Uuid → List SaleItem → Tx (List SaleItem)
unfolding insert_sale_item
insert_sale_items F env k sale [] = pure []
insert_sale_items F env k sale (it ∷ items) = do
  row ← insert_sale_item F env k sale it
  rest ← insert_sale_items F env (suc k) sale items
  pure (row ∷ rest)

unfoldable pub create_with_items :
    Float64Ops → Env → Option Uuid → Uuid → Option Uuid → List SaleItem → Tx (Sale × List SaleItem)
create_with_items F env customer branch cashier items =
    let subtotal = subtotal_from F float_zero items in
    let tax = F.mul subtotal tax_rate in
    let total = F.add subtotal tax in
    do
      sale ← insert_sale F env customer branch cashier subtotal tax total
      out ← insert_sale_items F env 2 sale.id items
      pure (sale, out)

abbrev pub confirmed_now : Env → Sale → Sale
confirmed_now env s = record s {
  status = SaleStatus.confirmed;
  confirmed_at = some env.now;
  updated_at = env.now;
}

-- WHERE id = $1 AND status = 'pending'
abbrev pub is_pending_sale : Uuid → Sale → Bool
is_pending_sale sale s = s.id == sale && is_pending s.status

-- UPDATE sales SET status = 'confirmed' … WHERE id = $1 AND status = 'pending' RETURNING …
unfoldable pub confirm : Env → Uuid → Tx Sale
confirm env sale = do
  rows ← gets (λ db. db.sales)
  row ← or_fail Error.not_found (find_where (is_pending_sale sale) rows)
  put_sales (update_where (is_pending_sale sale) (confirmed_now env) rows)
  pure (confirmed_now env row)

pub record CustomerContact : Type 0 where
  pub id : Uuid
  pub name : String
  pub email : String

-- COALESCE(NULLIF(c.full_name, ''), u.full_name, '')
abbrev pub contact_name : Customer → Option User → String
contact_name c none = c.full_name
contact_name c (some u) = if str_eq c.full_name "" then u.full_name else c.full_name

abbrev pub contact_email : Option User → String
contact_email none = ""
contact_email (some u) = u.email

abbrev pub user_of_customer : List User → Customer → Option User
user_of_customer us c = elim c.user_id [ none ↦ none | some u ↦ find_where (λ x. x.id == u) us ]

unfoldable pub find_customer_contact : Uuid → Tx CustomerContact
find_customer_contact customer db = elim (find_where (λ c. c.id == customer) db.customers) [
  | none ↦ err Error.not_found db
  | some c ↦
      let u = user_of_customer db.users c in
      ok (record { id = c.id; name = contact_name c u; email = contact_email u }) db
]

-- SELECT … FROM sale_items WHERE sale_id = $1 ORDER BY created_at
unfoldable pub items_of : Uuid → Db → List SaleItem
items_of sale db =
    order_by (λ x y. leb x.created_at y.created_at)
      (select_where (λ it. it.sale_id == sale) db.sale_items)

-- Both statements run on the pool, outside the caller's transaction.
unfoldable pub find : Uuid → Tx (Sale × List SaleItem)
find sale db = elim (find_where (λ s. s.id == sale) db.sales) [
  | none ↦ err Error.not_found db
  | some s ↦ ok (s, items_of sale db) db
]
