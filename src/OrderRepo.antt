-- ===== src/OrderRepo.antt =====
-- internal/repository/orders.go: the orders that confirmed sales give rise to.
use ficct_boutique_backend_g.Base.{
  Option, order_by, select_where, leb, ◌&&◌, ◌||◌, true, String, none, some, Bool, List, ◌==◌, not,
  find_where, any_where, insert_row, str_eq,
}
use ficct_boutique_backend_g.Base.Int.{ℤ}
use ficct_boutique_backend_g.SalesRepo.{is_some_eq, owner_of_sale}
use ficct_boutique_backend_g.Models.{Uuid, OrderStatus, Order}
use ficct_boutique_backend_g.Store.{
  Db, Error, Tx, Env, ok, pure, ◌>>=◌, ◌>>◌, gets, fail_if, or_fail, check_page, page,
}

abbrev pub put_orders : List Order → Tx (Unit {0})
put_orders rows db = ok tt (record db { orders = rows })

abbrev pub new_order : Env → Uuid → String → Order
new_order env sale code = record {
  id = env.uuid 0;
  sale_id = sale;
  code = code;
  status = OrderStatus.placed;
  notes = none;
  created_at = env.now;
  updated_at = env.now;
}

-- INSERT INTO orders (sale_id, code) …: id, sale_id and code are unique, sale_id is a foreign key.
-- The order's identifier is the first that the call draws.
unfoldable pub create_for_sale : Env → Uuid → String → Tx Order
create_for_sale env sale code = do
  rows ← gets (λ db. db.orders)
  fail_if (any_where (λ o. o.id == env.uuid 0) rows) Error.unique_violation
  fail_if (any_where (λ o. o.sale_id == sale) rows) Error.unique_violation
  fail_if (any_where (λ o. str_eq o.code code) rows) Error.unique_violation
  linked ← gets (λ db. any_where (λ s. s.id == sale) db.sales)
  fail_if (not linked) Error.foreign_key_violation
  put_orders (insert_row (new_order env sale code) rows)
  pure (new_order env sale code)

unfoldable pub find : Uuid → Tx Order
find order db = or_fail Error.not_found (find_where (λ o. o.id == order) db.orders) db

-- The text of a status in the column.
abbrev pub order_status_text : OrderStatus → String
order_status_text OrderStatus.placed = "placed"
order_status_text OrderStatus.preparing = "preparing"
order_status_text OrderStatus.ready = "ready"
order_status_text OrderStatus.delivered = "delivered"
order_status_text OrderStatus.cancelled = "cancelled"

-- `if status != nil && *status != ""`
abbrev pub has_order_status : Option String → Order → Bool
has_order_status none o = true
has_order_status (some s) o = str_eq s "" || str_eq (order_status_text o.status) s

-- JOIN sales s ON s.id = o.sale_id JOIN customers c ON c.id = s.customer_id WHERE c.user_id = $1
abbrev pub is_order_of : Uuid → Db → Order → Bool
is_order_of user db o =
    is_some_eq (owner_of_sale db.customers (find_where (λ s. s.id == o.sale_id) db.sales)) user

-- ORDER BY created_at DESC
abbrev pub newest_orders : List Order → List Order
newest_orders = order_by (λ x y. leb y.created_at x.created_at)

unfoldable pub list : Option String → ℤ → ℤ → Tx (List Order)
list status limit offset = do
  check_page limit offset
  rows ← gets (λ db. newest_orders (select_where (has_order_status status) db.orders))
  pure (page limit offset rows)

unfoldable pub list_by_user : Uuid → Option String → ℤ → ℤ → Tx (List Order)
list_by_user user status limit offset = do
  check_page limit offset
  rows ← gets (λ db.
      newest_orders
        (select_where (λ o. is_order_of user db o && has_order_status status o) db.orders))
  pure (page limit offset rows)
