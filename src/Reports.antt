-- ===== src/Reports.antt =====
-- internal/repository/reports.go and internal/service/reports_service.go: the figures of the
-- dashboard.
pub mod Monthly
pub mod Popular
use ficct_boutique_backend_g.Base.{
  ℕ, ◌+◌, String, Bool, true, false, ◌&&◌, ◌||◌, Option, none, some, List, [], ◌∷◌, ◌==◌, leb,
  if◌then◌else◌, find_where, select_where, order_by, map, length, take, distinct,
}
use ficct_boutique_backend_g.Base.Int.{ℤ, pos, pos_part, ltb_ℤ, leb_ℤ, ◌+ℤ◌}
use ficct_boutique_backend_g.Float.{float_zero}
use ficct_boutique_backend_g.Models.{
  Uuid, Timestamp, Float64, SaleStatus, Sale, SaleItem, OrderStatus, Order, Product, ProductVariant,
}
use ficct_boutique_backend_g.Store.{Db, Tx, Env, pure, gets}

-- The functions of PostgreSQL on times and amounts: date_trunc('month', …), the time a number of
-- months before another, the date of a time, and the sum of a NUMERIC column, as a float64.
pub record Sql : Type 0 where
  pub month_of : Timestamp → Timestamp
  pub months_before : Timestamp → ℤ → Timestamp
  pub date_of : Timestamp → ℕ
  pub sum : List Float64 → Float64

abbrev pub is_confirmed : SaleStatus → Bool
is_confirmed SaleStatus.confirmed = true
is_confirmed _ = false

pub record MonthlySaleRow : Type 0 where
  pub month : Timestamp
  pub total_sales : Float64
  pub sale_count : ℕ

-- WHERE status = 'confirmed' AND created_at >= NOW() - ($1::int || ' months')::interval
abbrev pub confirmed_since : Sql → Timestamp → ℤ → Db → List Sale
confirmed_since Q now months db =
    select_where (λ s. is_confirmed s.status && leb (Q.months_before now months) s.created_at)
      db.sales

-- A group of GROUP BY m.
abbrev pub month_row : Sql → List Sale → Timestamp → MonthlySaleRow
month_row Q sales m =
    let rows = select_where (λ s. Q.month_of s.created_at == m) sales in
    record { month = m; total_sales = Q.sum (map (λ s. s.total) rows); sale_count = length rows }

-- The months of the rows, ORDER BY m.
abbrev pub months_of : Sql → List Sale → List Timestamp
months_of Q sales = distinct (order_by leb (map (λ s. Q.month_of s.created_at) sales))

unfoldable pub monthly_rows : Sql → List Sale → List MonthlySaleRow
monthly_rows Q sales = map (month_row Q sales) (months_of Q sales)

unfoldable pub monthly_sales_rows : Sql → Env → ℤ → Tx (List MonthlySaleRow)
unfolding monthly_rows
monthly_sales_rows Q env months = gets (λ db. monthly_rows Q (confirmed_since Q env.now months db))

pub record PopularProductRow : Type 0 where
  pub product_id : Uuid
  pub product_name : String
  pub units_sold : ℤ
  pub revenue : Float64

-- The items of confirmed sales, each with its product, where the joins find one.
pub record SoldItem : Type 0 where
  pub item : SaleItem
  pub product : Product

abbrev pub with_product : SaleItem → Option Product → List SoldItem → List SoldItem
with_product it none rest = rest
with_product it (some p) rest = record { item = it; product = p } ∷ rest

abbrev pub product_of : Db → Option ProductVariant → Option Product
product_of db none = none
product_of db (some v) = find_where (λ p. p.id == v.product_id) db.products

abbrev pub is_of_confirmed : Db → SaleItem → Bool
is_of_confirmed db it = elim (find_where (λ s. s.id == it.sale_id) db.sales) [
  | none ↦ false
  | some s ↦ is_confirmed s.status
]

abbrev pub sold_items_of : Db → List SaleItem → List SoldItem
sold_items_of db [] = []
sold_items_of db (it ∷ items) =
    with_product it (product_of db (find_where (λ v. v.id == it.variant_id) db.variants))
      (sold_items_of db items)

unfoldable pub sold_items : Db → List SoldItem
sold_items db = sold_items_of db (select_where (is_of_confirmed db) db.sale_items)

-- SUM(si.quantity)
abbrev pub units : List SoldItem → ℤ
units [] = pos 0
units (x ∷ xs) = x.item.quantity +ℤ units xs

-- p.name, of a group of at least one row.
abbrev pub name_of : List SoldItem → String
name_of [] = ""
name_of (x ∷ xs) = x.product.name

-- A group of GROUP BY p.id, p.name: an identifier has one name.
abbrev pub popular_row : Sql → List SoldItem → Uuid → PopularProductRow
popular_row Q sold id =
    let rows = select_where (λ x. x.product.id == id) sold in
    record {
      product_id = id;
      product_name = name_of rows;
      units_sold = units rows;
      revenue = Q.sum (map (λ x. x.item.line_total) rows);
    }

abbrev pub more_units : PopularProductRow → PopularProductRow → Bool
more_units x y = leb_ℤ y.units_sold x.units_sold

-- ORDER BY units DESC, whatever the order of the groups.
unfoldable pub popular_rows : Sql → List SoldItem → List PopularProductRow
popular_rows Q sold =
    order_by more_units (map (popular_row Q sold) (distinct (map (λ x. x.product.id) sold)))

unfoldable pub popular_products_rows : Sql → ℤ → Tx (List PopularProductRow)
unfolding popular_rows sold_items
popular_products_rows Q limit = gets (λ db. take (pos_part limit) (popular_rows Q (sold_items db)))

pub record DashboardSummary : Type 0 where
  pub today_sales : Float64
  pub today_orders : ℕ
  pub pending_orders : ℕ
  pub low_stock_count : ℕ
  pub active_products : ℕ
  pub active_branches : ℕ

abbrev pub is_open : OrderStatus → Bool
is_open OrderStatus.placed = true
is_open OrderStatus.preparing = true
is_open _ = false

-- status='confirmed' AND created_at::date = CURRENT_DATE
abbrev pub is_of_today : Sql → Timestamp → Sale → Bool
is_of_today Q now s = is_confirmed s.status && Q.date_of s.created_at == Q.date_of now

unfoldable pub dashboard_summary : Sql → Env → Tx DashboardSummary
dashboard_summary Q env = gets (λ db. record {
  today_sales = Q.sum (map (λ s. if is_of_today Q env.now s then s.total else float_zero) db.sales);
  today_orders = length (select_where (is_of_today Q env.now) db.sales);
  pending_orders = length (select_where (λ o. is_open o.status) db.orders);
  low_stock_count = length (select_where (λ i. leb_ℤ i.quantity i.reorder_level) db.inventory);
  active_products = length (select_where (λ p. p.is_active) db.products);
  active_branches = length (select_where (λ b. b.is_active) db.branches);
})

-- `if months <= 0 || months > 60 { months = 12 }`
abbrev pub clamped : ℤ → ℤ → ℤ → ℤ
clamped top default x = if leb_ℤ x (pos 0) || ltb_ℤ top x then default else x

-- The operations of ReportsService.
unfoldable pub monthly_sales : Sql → Env → ℤ → Tx (List MonthlySaleRow)
unfolding monthly_sales_rows
monthly_sales Q env months = monthly_sales_rows Q env (clamped (pos 60) (pos 12) months)

unfoldable pub popular_products : Sql → ℤ → Tx (List PopularProductRow)
unfolding popular_products_rows
popular_products Q limit = popular_products_rows Q (clamped (pos 100) (pos 10) limit)

abbrev pub dashboard : Sql → Env → Tx DashboardSummary
dashboard = dashboard_summary
