-- ===== src/SalesService/Steps.antt =====
-- A confirmation that went well, step by step: ConfirmSale of internal/service/sales_service.go.
use ficct_boutique_backend_g.Base.{
  ◌≡◌, refl, ◌∙◌, sym, ap, subst, true, false, Option, none, some, List, ◌==◌, not, inl, inr,
  String, if◌then◌else◌, find_where, any_where, update_where, insert_row, arith, Bool-cases,
  Option-cases, str_eq, not-eq-false,
}
use ficct_boutique_backend_g.Models.{
  Uuid, is_pending, Sale, SaleItem, Order, WebhookEvent, WebhookStatus,
  SaleConfirmedCustomerPayload,
}
use ficct_boutique_backend_g.Store.{Db, Error, Env, Outcome, ok, err, ◌>>◌, after, pure}
use ficct_boutique_backend_g.Store.Laws.{>>=-eq-ok, ok-injective, fail_if-eq-ok}
use ficct_boutique_backend_g.SalesRepo.{
  is_pending_sale, confirmed_now, confirm, find_customer_contact,
}
use ficct_boutique_backend_g.OrderRepo.{new_order, create_for_sale}
use ficct_boutique_backend_g.OutboxRepo.{enqueue}
use ficct_boutique_backend_g.SalesService.Code.{order_code}
use ficct_boutique_backend_g.SalesService.{
  ConfirmSaleResult, decrement_items, notify, enqueue_confirmed, confirm_read, customer_payload,
  build_sale_confirmed_webhook_payload,
}

-- UPDATE sales … that went well.
confirm-eq-ok :
    (env : Env) (sale : Uuid) (db w : Db) (s : Sale)
    → confirm env sale db ≡ ok s w
    → (row : Sale) × (find_where (is_pending_sale sale) db.sales ≡ some row)
      × (s ≡ confirmed_now env row)
      × (w ≡ record db { sales = update_where (is_pending_sale sale) (confirmed_now env) db.sales })
unfolding confirm
confirm-eq-ok env sale db w s h = elim (Option-cases (find_where (is_pending_sale sale) db.sales)) [
  | inl e ↦ absurd (ground arith)
  | inr (row, e) ↦ (row, e, ground arith, ground arith)
]

-- INSERT INTO orders … that went well.
create_for_sale-eq-ok :
    (env : Env) (sale : Uuid) (code : String) (db w : Db) (o : Order)
    → create_for_sale env sale code db ≡ ok o w
    → (new_order env sale code ≡ o)
      × (record db { orders = insert_row (new_order env sale code) db.orders } ≡ w)
      × (any_where (λ x. x.sale_id == sale) db.orders ≡ false)
      × (any_where (λ x. str_eq x.code code) db.orders ≡ false)
unfolding create_for_sale
create_for_sale-eq-ok env sale code db w o h =
    let (_, h1) =
      fail_if-eq-ok (any_where (λ o. o.id == env.uuid 0) db.orders) Error.unique_violation _ db h in
    let (once, h2) =
      fail_if-eq-ok (any_where (λ o. o.sale_id == sale) db.orders) Error.unique_violation _ db h1 in
    let (fresh, h3) =
      fail_if-eq-ok (any_where (λ o. str_eq o.code code) db.orders) Error.unique_violation _ db
        h2 in
    let (_, h4) =
      fail_if-eq-ok (not (any_where (λ s. s.id == sale) db.sales)) Error.foreign_key_violation _ db
        h3 in
    let (same, left) = ok-injective h4 in (same, left, once, fresh)

-- The event that a confirmation leaves in the outbox.
pub record IsEventOf (env : Env) (url : String) (s : Sale) (o : Order) (lines : List SaleItem)
    (e : WebhookEvent) : Type 0 where
  pub about : e.aggregate_id ≡ s.id
  pub to : e.target_url ≡ url
  pub waits : e.status ≡ WebhookStatus.pending
  pub fresh : e.attempts ≡ 0
  pub due : e.next_attempt_at ≡ env.now
  pub order_id : e.payload.order_id ≡ o.id
  pub total : e.payload.total ≡ s.total
  pub items : e.payload.items ≡ lines

-- The outbox afterwards: as it was with no target, else one event longer.
abbrev pub Notified : Env → String → Sale → Order → List SaleItem → Db → Db → Type 0
Notified env url s o items db w =
    if str_eq url ""
    then w ≡ db
    else (e : WebhookEvent) × IsEventOf env url s o items e
      × (w ≡ record db { outbox = insert_row e db.outbox })

-- Reading the contact of a customer changes nothing.
customer_payload-frame :
    (c : Option Uuid) (db w : Db) (p : SaleConfirmedCustomerPayload)
    → customer_payload c db ≡ ok p w
    → w ≡ db
unfolding customer_payload find_customer_contact
customer_payload-frame none db w p h = ground arith
customer_payload-frame (some c) db w p h = ground arith

-- INSERT INTO webhook_outbox … that went well.
enqueue-eq-ok :
    (env : Env) (kind : String) (s : Sale) (o : Order) (items : List SaleItem)
    (c : SaleConfirmedCustomerPayload) (url : String) (db w : Db) (e : WebhookEvent)
    → enqueue env kind s.id (build_sale_confirmed_webhook_payload s o items c) url db ≡ ok e w
    → IsEventOf env url s o items e × (w ≡ record db { outbox = insert_row e db.outbox })
unfolding enqueue build_sale_confirmed_webhook_payload
enqueue-eq-ok env kind s o items c url db w e h =
    let (_, h1) =
      fail_if-eq-ok (any_where (λ e. e.id == env.uuid 1) db.outbox) Error.unique_violation _ db h in
    let (same, left) = ok-injective h1 in
    (
      subst (IsEventOf env url s o items) same (record {
        about = refl;
        to = refl;
        waits = refl;
        fresh = refl;
        due = refl;
        order_id = refl;
        total = refl;
        items = refl;
      }),
      sym left ∙ ap (λ (x : WebhookEvent). record db { outbox = insert_row x db.outbox }) same,
    )

enqueue_confirmed-eq-ok :
    (env : Env) (url : String) (s : Sale) (o : Order) (items : List SaleItem) (db w : Db)
    (e : WebhookEvent)
    → enqueue_confirmed env url s o items db ≡ ok e w
    → IsEventOf env url s o items e × (w ≡ record db { outbox = insert_row e db.outbox })
unfolding enqueue_confirmed
enqueue_confirmed-eq-ok env url s o items db w e h =
    let (c, u, first, rest) = >>=-eq-ok (customer_payload s.customer_id) _ db h in
    let (event, same) = enqueue-eq-ok env "sale.confirmed" s o items c url u w e rest in
    (
      event,
      same
          ∙ ap (λ (d : Db). record d { outbox = insert_row e d.outbox })
              (customer_payload-frame s.customer_id db u c first),
    )

notify-eq-ok :
    (env : Env) (url : String) (s : Sale) (o : Order) (items : List SaleItem) (db w : Db)
    → notify env url s o items db ≡ ok tt w
    → Notified env url s o items db w
unfolding notify
notify-eq-ok env url s o items db w h = elim (Bool-cases (str_eq url "")) [
  | inl off ↦ rw off (ground arith)
  | inr on ↦ rw on (posted (rw on at h))
]
  where
    posted :
        (enqueue_confirmed env url s o items >> pure tt) db ≡ ok tt w
        → (e : WebhookEvent) × IsEventOf env url s o items e
          × (w ≡ record db { outbox = insert_row e db.outbox })
    posted k =
        let (e, u, first, rest) =
          >>=-eq-ok (enqueue_confirmed env url s o items) (λ _. pure tt) db k in
        let (event, same) = enqueue_confirmed-eq-ok env url s o items db u e first in
        (e, event, subst (λ o. after o ≡ record db { outbox = insert_row e db.outbox }) rest same)

-- The steps of a confirmation that went well: the stock, the sale, the order, the event.
pub record Steps (env : Env) (url : String) (s : Sale) (items : List SaleItem) (db w : Db)
    (r : ConfirmSaleResult) : Type 0 where
  pub pending : is_pending s.status ≡ true
  pub stocked : Db
  pub sold : Db
  pub ordered : Db
  pub row : Sale
  pub taken : decrement_items env s.branch_id items db ≡ ok tt stocked
  pub found : find_where (is_pending_sale s.id) stocked.sales ≡ some row
  pub sale : r.sale ≡ confirmed_now env row
  pub confirms : sold ≡ record stocked {
    sales = update_where (is_pending_sale s.id) (confirmed_now env) stocked.sales;
  }
  pub order : r.order ≡ new_order env r.sale.id (order_code env.date env.random_id)
  pub orders : ordered ≡ record sold { orders = insert_row r.order sold.orders }
  pub first_order : any_where (λ o. o.sale_id == r.sale.id) sold.orders ≡ false
  pub new_code :
      any_where (λ o. str_eq o.code (order_code env.date env.random_id)) sold.orders ≡ false
  pub notified : Notified env url r.sale r.order items ordered w

abbrev StepsTo : Env → String → Sale → List SaleItem → Db → Outcome ConfirmSaleResult → Type 0
StepsTo env url s items db (ok r w) = Steps env url s items db w r
StepsTo env url s items db (err e w) = ⊥

steps :
    (env : Env) (url : String) (s : Sale) (items : List SaleItem) (db u v x y : Db) (c : Sale)
    (o : Order)
    → is_pending s.status ≡ true
    → decrement_items env s.branch_id items db ≡ ok tt u
    → confirm env s.id u ≡ ok c v
    → create_for_sale env c.id (order_code env.date env.random_id) v ≡ ok o x
    → notify env url c o items x ≡ ok tt y
    → Steps env url s items db y (record { sale = c; order = o })
steps env url s items db u v x y c o pending taken confirmed ordered told =
    let code = order_code env.date env.random_id in
    let (row, found, sale, v_eq) = confirm-eq-ok env s.id u v c confirmed in
    let (o_eq, x_eq, once, fresh) = create_for_sale-eq-ok env c.id code v x o ordered in
    record {
      pending = pending;
      stocked = u;
      sold = v;
      ordered = x;
      row = row;
      taken = taken;
      found = found;
      sale = sale;
      confirms = v_eq;
      order = sym o_eq;
      orders = sym x_eq ∙ ap (λ (z : Order). record v { orders = insert_row z v.orders }) o_eq;
      first_order = once;
      new_code = fresh;
      notified = notify-eq-ok env url c o items x y told;
    }

pub confirm_read-Steps :
    (env : Env) (url : String) (s : Sale) (items : List SaleItem) (db w : Db)
    (r : ConfirmSaleResult)
    → confirm_read env url (s, items) db ≡ ok r w
    → Steps env url s items db w r
unfolding confirm_read
confirm_read-Steps env url s items db w r h =
    let code = order_code env.date env.random_id in
    let (pending, h0) = fail_if-eq-ok (not (is_pending s.status)) Error.sale_not_pending _ db h in
    let (_, u, taken, h1) = >>=-eq-ok (decrement_items env s.branch_id items) _ db h0 in
    let (c, v, confirmed, h2) = >>=-eq-ok (confirm env s.id) _ u h1 in
    let (o, x, ordered, h3) = >>=-eq-ok (create_for_sale env c.id code) _ v h2 in
    let (_, y, told, h4) = >>=-eq-ok (notify env url c o items) _ x h3 in
    let made : ConfirmSaleResult = record { sale = c; order = o } in
    let result : Path (Outcome ConfirmSaleResult) (ok made y) (ok r w) = h4 in
    subst (λ (q : Outcome ConfirmSaleResult). StepsTo env url s items db q) result
      (steps env url s items db u v x y c o (not-eq-false (is_pending s.status) pending) taken
        confirmed ordered told)
