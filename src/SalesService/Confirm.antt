-- ===== src/SalesService/Confirm.antt =====
-- What ConfirmSale of internal/service/sales_service.go does to the database, on every branch.
use ficct_boutique_backend_g.Base.{
  ◌≡◌, ◌∙◌, sym, ap, subst, true, false, some, List, [], ◌∷◌, ◌==◌, inl, inr, Bool, String,
  find_where, any_where, update_where, insert_row, arith, Bool-cases, Option-cases,
  find_where-passes, str_eq, ==_iff,
}
use ficct_boutique_backend_g.Models.{Uuid, is_pending, Sale, SaleItem, Order, WebhookEvent}
use ficct_boutique_backend_g.Store.{Db, Env, ok, read_on_pool}
use ficct_boutique_backend_g.Store.Laws.{>>=-eq-ok, in_transaction-eq-ok}
use ficct_boutique_backend_g.SalesRepo.{is_pending_sale, confirmed_now, find, items_of}
use ficct_boutique_backend_g.InventoryRepo.Stock.{stock}
use ficct_boutique_backend_g.InventoryRepo.Sound.{IsSound}
use ficct_boutique_backend_g.SalesService.Stock.{
  less, sold_at, decrement_items-stock, decrement_items-frame, decrement_items-IsSound,
}
use ficct_boutique_backend_g.SalesService.Steps.{Steps, IsEventOf, Notified, confirm_read-Steps}
use ficct_boutique_backend_g.SalesService.{ConfirmSaleResult, confirm_read, confirm_sale}

-- WHERE id = $1
abbrev pub by_id : Uuid → Sale → Bool
by_id sale s = s.id == sale

find-pending :
    (sale : Uuid) (rows : List Sale) (s : Sale)
    → find_where (by_id sale) rows ≡ some s
    → is_pending s.status ≡ true
    → find_where (is_pending_sale sale) rows ≡ some s
find-pending sale [] s e p = absurd (cc)
find-pending sale (x ∷ xs) s e p = elim (Bool-cases (x.id == sale)) [
  | inl hit ↦ ground arith
  | inr miss ↦ ground (arith, find-pending sale xs s)
]

find-confirmed :
    (env : Env) (sale : Uuid) (rows : List Sale) (s : Sale)
    → find_where (by_id sale) rows ≡ some s
    → is_pending s.status ≡ true
    → find_where (by_id sale) (update_where (is_pending_sale sale) (confirmed_now env) rows)
      ≡ some (confirmed_now env s)
find-confirmed env sale [] s e p = absurd (cc)
find-confirmed env sale (x ∷ xs) s e p = elim (Bool-cases (x.id == sale)) [
  | inl hit ↦ ground arith
  | inr miss ↦ ground (arith, find-confirmed env sale xs s)
]

-- What a confirmation that went well has done to the database.
pub record Confirmed (env : Env) (url : String) (sale : Uuid) (db w : Db) (r : ConfirmSaleResult)
    : Type 0 where
  -- The sale as it was.
  pub before : Sale
  pub found : find_where (by_id sale) db.sales ≡ some before
  pub was_pending : is_pending before.status ≡ true
  -- The sale as it is.
  pub stored : find_where (by_id sale) w.sales ≡ some r.sale
  pub confirms : r.sale ≡ confirmed_now env before
  -- The one order.
  pub order_of : r.order.sale_id ≡ sale
  pub one_order : w.orders ≡ insert_row r.order db.orders
  pub first_order : any_where (λ o. o.sale_id == sale) db.orders ≡ false
  -- The stock.
  pub takes :
      (v b : Uuid)
      → stock v b w.inventory
        ≡ less (stock v b db.inventory) (sold_at before.branch_id v b (items_of sale db))

-- A read of the sale on the pool that went well.
pool_find-eq-ok :
    (sale : Uuid) (db v : Db) (s : Sale) (items : List SaleItem)
    → read_on_pool (find sale) db db ≡ ok (s, items) v
    → (find_where (by_id sale) db.sales ≡ some s) × (items ≡ items_of sale db) × (v ≡ db)
unfolding find
pool_find-eq-ok sale db v s items h = elim (Option-cases (find_where (by_id sale) db.sales)) [
  | inl e ↦ absurd (ground arith)
  | inr (x, e) ↦ ground arith
]

-- A confirmation that went well began with a read of the sale.
pub confirm_sale-eq-ok :
    (env : Env) (url : String) (sale : Uuid) (db w : Db) (r : ConfirmSaleResult)
    → confirm_sale env url sale db ≡ ok r w
    → (s : Sale) × (find_where (by_id sale) db.sales ≡ some s)
      × Steps env url s (items_of sale db) db w r
unfolding confirm_sale
confirm_sale-eq-ok env url sale db w r h =
    let (body, _, _) = in_transaction-eq-ok env _ db h in
    let (read, v, first, rest) =
      >>=-eq-ok (read_on_pool (find sale) db) (confirm_read env url) db body in
    let (found, items, same) = pool_find-eq-ok sale db v read.0 read.1 first in
    (
      read.0,
      found,
      subst (λ l. Steps env url read.0 l db w r) items
          (subst (λ d. Steps env url read.0 read.1 d w r) same
            (confirm_read-Steps env url read.0 read.1 v w r rest)),
    )

-- The webhook touches the outbox alone.
Notified-frame :
    (env : Env) (url : String) (c : Sale) (o : Order) (items : List SaleItem) (db w : Db)
    → Notified env url c o items db w
    → (w.sales ≡ db.sales) × (w.orders ≡ db.orders) × (w.inventory ≡ db.inventory)
Notified-frame env url c o items db w n = elim (Bool-cases (str_eq url "")) [
  | inl off ↦ off_frame (rw off at n)
  | inr on ↦ on_frame (rw on at n)
]
  where
    off_frame :
        w ≡ db → (w.sales ≡ db.sales) × (w.orders ≡ db.orders) × (w.inventory ≡ db.inventory)
    off_frame e =
        (ap (λ (d : Db). d.sales) e, ap (λ (d : Db). d.orders) e, ap (λ (d : Db). d.inventory) e)

    on_frame :
        (e : WebhookEvent) × IsEventOf env url c o items e
          × (w ≡ record db { outbox = insert_row e db.outbox })
        → (w.sales ≡ db.sales) × (w.orders ≡ db.orders) × (w.inventory ≡ db.inventory)
    on_frame (ev, _, e) =
        (ap (λ (d : Db). d.sales) e, ap (λ (d : Db). d.orders) e, ap (λ (d : Db). d.inventory) e)

module _ (env : Env) (url : String) (sale : Uuid) (db w : Db) (r : ConfirmSaleResult) (s : Sale)
    (found : find_where (by_id sale) db.sales ≡ some s)
    (t : Steps env url s (items_of sale db) db w r) where
  same_id : s.id ≡ sale
  same_id = (==_iff s.id sale).0 (find_where-passes (by_id sale) db.sales s found).0

  pub stocked_frame : t.stocked ≡ record db { inventory = t.stocked.inventory }
  stocked_frame = decrement_items-frame env s.branch_id (items_of sale db) db t.stocked t.taken

  row-eq : s ≡ t.row
  row-eq = cc (
      sym (
        find-pending s.id db.sales s
          (ap (λ (u : Uuid). find_where (by_id u) db.sales) same_id ∙ found) t.pending)
      ∙ ap (λ (d : Db). find_where (is_pending_sale s.id) d.sales) (sym stocked_frame)
      ∙ t.found)

  told :
      (w.sales ≡ t.ordered.sales)
      × (w.orders ≡ t.ordered.orders)
      × (w.inventory ≡ t.ordered.inventory)
  told = Notified-frame env url r.sale r.order (items_of sale db) t.ordered w t.notified

  result_sale : r.sale ≡ confirmed_now env s
  result_sale = t.sale ∙ ap (confirmed_now env) (sym row-eq)

  pub final_sales : w.sales ≡ update_where (is_pending_sale sale) (confirmed_now env) db.sales
  final_sales =
      told.0
      ∙ ap (λ (d : Db). d.sales) t.orders
      ∙ ap (λ (d : Db). d.sales) t.confirms
      ∙ ap (λ (d : Db). update_where (is_pending_sale s.id) (confirmed_now env) d.sales)
          stocked_frame
      ∙ ap (λ (u : Uuid). update_where (is_pending_sale u) (confirmed_now env) db.sales) same_id

  final_orders : w.orders ≡ insert_row r.order db.orders
  final_orders =
      told.1
      ∙ ap (λ (d : Db). d.orders) t.orders
      ∙ ap (λ (d : Db). insert_row r.order d.orders) t.confirms
      ∙ ap (λ (d : Db). insert_row r.order d.orders) stocked_frame

  final_inventory : w.inventory ≡ t.stocked.inventory
  final_inventory =
      told.2 ∙ ap (λ (d : Db). d.inventory) t.orders ∙ ap (λ (d : Db). d.inventory) t.confirms

  result_id : r.sale.id ≡ sale
  result_id = ap (λ (x : Sale). x.id) result_sale ∙ same_id

  Steps-Confirmed : IsSound db.inventory → Confirmed env url sale db w r
  Steps-Confirmed sound = record {
    before = s;
    found = found;
    was_pending = t.pending;
    stored =
        ap (find_where (by_id sale)) final_sales
        ∙ find-confirmed env sale db.sales s found t.pending
        ∙ ap some (sym result_sale);
    confirms = result_sale;
    order_of = ap (λ (o : Order). o.sale_id) t.order ∙ result_id;
    one_order = final_orders;
    first_order =
        ap (λ (d : Db). any_where (λ o. o.sale_id == sale) d.orders) (sym stocked_frame)
        ∙ ap (λ (d : Db). any_where (λ o. o.sale_id == sale) d.orders) (sym t.confirms)
        ∙ ap (λ (u : Uuid). any_where (λ (o : Order). o.sale_id == u) t.sold.orders) (sym result_id)
        ∙ t.first_order;
    takes = λ v b.
        ap (stock v b) final_inventory
        ∙ decrement_items-stock env s.branch_id (items_of sale db) v b db t.stocked sound t.taken;
  }

  Steps-IsSound : IsSound db.inventory → IsSound w.inventory
  Steps-IsSound sound =
      subst IsSound (sym final_inventory)
        (decrement_items-IsSound env s.branch_id (items_of sale db) db t.stocked sound t.taken)

-- A confirmation that goes well: the sale was found pending and is now stored as confirmed at the
-- time of the call, with nothing else of it changed; exactly one order was added, for this sale,
-- which had none before; and from the stock of each variant at each branch went the units of it
-- among the sale's items, if the branch is the sale's, and nothing otherwise.
pub confirm_sale-Confirmed :
    (env : Env) (url : String) (sale : Uuid) (db w : Db) (r : ConfirmSaleResult)
    → IsSound db.inventory
    → confirm_sale env url sale db ≡ ok r w
    → Confirmed env url sale db w r
confirm_sale-Confirmed env url sale db w r sound h =
    let (s, found, t) = confirm_sale-eq-ok env url sale db w r h in
    Steps-Confirmed env url sale db w r s found t sound

-- A confirmation keeps the constraints of the inventory, so it never sells what is not there.
pub confirm_sale-IsSound :
    (env : Env) (url : String) (sale : Uuid) (db w : Db) (r : ConfirmSaleResult)
    → IsSound db.inventory
    → confirm_sale env url sale db ≡ ok r w
    → IsSound w.inventory
confirm_sale-IsSound env url sale db w r sound h =
    let (s, found, t) = confirm_sale-eq-ok env url sale db w r h in
    Steps-IsSound env url sale db w r s found t sound
