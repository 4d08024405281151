-- ===== src/SalesRepo/Listing.antt =====
-- List of internal/repository/sales.go: sales by status and time, in pages.
use ficct_boutique_backend_g.Base.{
  String, Bool, true, ◌&&◌, ◌||◌, Option, none, some, List, leb, str_eq, select_where, order_by,
}
use ficct_boutique_backend_g.Base.Int.{ℤ}
use ficct_boutique_backend_g.Models.{Timestamp, SaleStatus, Sale}
use ficct_boutique_backend_g.Store.{Tx, pure, ◌>>=◌, ◌>>◌, gets, check_page, page}

-- The text of a status in the column.
abbrev pub sale_status_text : SaleStatus → String
sale_status_text SaleStatus.pending = "pending"
sale_status_text SaleStatus.confirmed = "confirmed"
sale_status_text SaleStatus.cancelled = "cancelled"

-- `if status != nil && *status != ""`
abbrev pub has_sale_status : Option String → Sale → Bool
has_sale_status none s = true
has_sale_status (some t) s = str_eq t "" || str_eq (sale_status_text s.status) t

abbrev pub since_time : Option Timestamp → Sale → Bool
since_time none s = true
since_time (some t) s = leb t s.created_at

abbrev pub until_time : Option Timestamp → Sale → Bool
until_time none s = true
until_time (some t) s = leb s.created_at t

unfoldable pub list : Option String → Option Timestamp → Option Timestamp → ℤ → ℤ → Tx (List Sale)
list status since until limit offset = do
  check_page limit offset
  rows ← gets (λ db.
      order_by (λ x y. leb y.created_at x.created_at)
        (select_where (λ s. has_sale_status status s && (since_time since s && until_time until s))
          db.sales))
  pure (page limit offset rows)
