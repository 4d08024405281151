-- ===== src/Queries/Listing.antt =====
-- graph/queries.go: the queries on branches and sales, and those of the dashboard.
use ficct_boutique_backend_g.Base.{String, Bool, Option, none, List, map}
use ficct_boutique_backend_g.Base.Int.{ℤ, pos, to_int32}
use ficct_boutique_backend_g.Models.{Uuid, Timestamp, Float64, Branch, Sale}
use ficct_boutique_backend_g.Store.{Tx, Env, pure, ◌>>=◌, ◌>>◌}
use ficct_boutique_backend_g.Authz.{Context, check, require_admin_or_staff}
use ficct_boutique_backend_g.BranchRepo
use ficct_boutique_backend_g.SalesRepo.Listing
use ficct_boutique_backend_g.Reports
use ficct_boutique_backend_g.Reports.{Sql, MonthlySaleRow, PopularProductRow, DashboardSummary}
use ficct_boutique_backend_g.Queries.{number_or, null_if_missing}

abbrev pub branches : (String → String → Bool) → Tx (List Branch)
branches collate = BranchRepo.list collate

unfoldable pub branch : Uuid → Tx (Option Branch)
branch id db = null_if_missing (BranchRepo.find id db)

unfoldable pub sales : Context → Option String → Option ℤ → Option ℤ → Tx (List Sale)
sales ctx status limit offset = do
  check (require_admin_or_staff ctx)
  Listing.list status none none (number_or (pos 50) limit) (number_or (pos 0) offset)

-- The rows of the reports, with int32 in place of int.
pub record MonthlySalePoint : Type 0 where
  pub month : Timestamp
  pub total_sales : Float64
  pub sale_count : ℤ

abbrev pub sale_point : MonthlySaleRow → MonthlySalePoint
sale_point r = record {
  month = r.month;
  total_sales = r.total_sales;
  sale_count = to_int32 (pos r.sale_count);
}

abbrev pub popular_point : PopularProductRow → PopularProductRow
popular_point r = record r { units_sold = to_int32 r.units_sold }

pub record DashboardTiles : Type 0 where
  pub today_sales : Float64
  pub today_orders : ℤ
  pub pending_orders : ℤ
  pub low_stock_count : ℤ
  pub active_products : ℤ
  pub active_branches : ℤ

abbrev pub tiles : DashboardSummary → DashboardTiles
tiles d = record {
  today_sales = d.today_sales;
  today_orders = to_int32 (pos d.today_orders);
  pending_orders = to_int32 (pos d.pending_orders);
  low_stock_count = to_int32 (pos d.low_stock_count);
  active_products = to_int32 (pos d.active_products);
  active_branches = to_int32 (pos d.active_branches);
}

module _ (Q : Sql) where
  unfoldable pub monthly_sales : Env → Context → Option ℤ → Tx (List MonthlySalePoint)
  monthly_sales env ctx months = do
    check (require_admin_or_staff ctx)
    rows ← Reports.monthly_sales Q env (number_or (pos 12) months)
    pure (map sale_point rows)

  unfoldable pub popular_products : Context → Option ℤ → Tx (List PopularProductRow)
  popular_products ctx limit = do
    check (require_admin_or_staff ctx)
    rows ← Reports.popular_products Q (number_or (pos 10) limit)
    pure (map popular_point rows)

  unfoldable pub dashboard_summary : Env → Context → Tx DashboardTiles
  dashboard_summary env ctx = do
    check (require_admin_or_staff ctx)
    summary ← Reports.dashboard Q env
    pure (tiles summary)
