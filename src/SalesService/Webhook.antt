-- ===== src/SalesService/Webhook.antt =====
-- The event of a confirmed sale: ConfirmSale of internal/service/sales_service.go enqueues it in its
-- own transaction.
use ficct_boutique_backend_g.Base.{
  ◌≡◌, ◌∙◌, ap, String, if◌then◌else◌, insert_row, Bool-cases, inl, inr, str_eq,
}
use ficct_boutique_backend_g.Models.{Uuid, WebhookEvent}
use ficct_boutique_backend_g.Store.{Db, Env, ok}
use ficct_boutique_backend_g.SalesRepo.{items_of}
use ficct_boutique_backend_g.SalesService.Steps.{IsEventOf, Notified}
use ficct_boutique_backend_g.SalesService.Confirm.{confirm_sale-eq-ok, stocked_frame}
use ficct_boutique_backend_g.SalesService.{ConfirmSaleResult, confirm_sale}

-- The outbox after a confirmation: as it was where no target is set, else longer by the event of
-- this sale and this order.
abbrev pub Told : Env → String → Uuid → ConfirmSaleResult → Db → Db → Type 0
Told env url sale r db w =
    if str_eq url ""
    then w.outbox ≡ db.outbox
    else (e : WebhookEvent) × IsEventOf env url r.sale r.order (items_of sale db) e
      × (w.outbox ≡ insert_row e db.outbox)

Notified-outbox :
    (env : Env) (url : String) (sale : Uuid) (r : ConfirmSaleResult) (db v w : Db)
    → v.outbox ≡ db.outbox
    → Notified env url r.sale r.order (items_of sale db) v w
    → Told env url sale r db w
Notified-outbox env url sale r db v w same n = elim (Bool-cases (str_eq url "")) [
  | inl off ↦ rw off (ap (λ (d : Db). d.outbox) (rw off at n) ∙ same)
  | inr on ↦ rw on (told (rw on at n))
]
  where
    told :
        (e : WebhookEvent) × IsEventOf env url r.sale r.order (items_of sale db) e
          × (w ≡ record v { outbox = insert_row e v.outbox })
        → (e : WebhookEvent) × IsEventOf env url r.sale r.order (items_of sale db) e
          × (w.outbox ≡ insert_row e db.outbox)
    told (e, about, left) = (e, about, ap (λ (d : Db). d.outbox) left ∙ ap (insert_row e) same)

-- A confirmation that goes well tells the receiver, if one is configured, through exactly one new
-- event in the outbox: it is for that sale and target, pending, due at once, not tried yet, and
-- carries the identifier of the new order, the total of the sale and the sale's items. Without a
-- target the outbox stays as it is.
pub confirm_sale-Told :
    (env : Env) (url : String) (sale : Uuid) (db w : Db) (r : ConfirmSaleResult)
    → confirm_sale env url sale db ≡ ok r w
    → Told env url sale r db w
confirm_sale-Told env url sale db w r h =
    let (s, found, t) = confirm_sale-eq-ok env url sale db w r h in
    Notified-outbox env url sale r db t.ordered w
      (ap (λ (d : Db). d.outbox) t.orders
        ∙ (ap (λ (d : Db). d.outbox) t.confirms
            ∙ ap (λ (d : Db). d.outbox) (stocked_frame env url sale db w r s found t)))
      t.notified
