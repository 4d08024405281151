-- ===== src/SalesService.antt =====
-- internal/service/sales_service.go: sales are built from catalog prices and then confirmed.
pub mod Code
pub mod Stock
pub mod Steps
pub mod Confirm
pub mod Refuse
pub mod Webhook
pub mod Clash
pub mod Lines
pub mod Create
pub mod Buyer
use ficct_boutique_backend_g.Base.{
  ℕ, suc, ◌+◌, ◌%◌, Bool, true, false, String, Option, none, some, List, [], ◌∷◌, ◌&&◌, ◌||◌, not,
  ◌==◌, if◌then◌else◌, str_eq,
}
use ficct_boutique_backend_g.Base.Int.{ℤ}
use ficct_boutique_backend_g.Models.{
  Uuid, Float64, Product, ProductVariant, Sale, SaleItem, Order, is_pending,
  SaleConfirmedCustomerPayload, SaleConfirmedWebhookPayload, WebhookEvent,
}
use ficct_boutique_backend_g.Float.{Float64Ops}
use ficct_boutique_backend_g.Store.{
  Db, Error, Tx, Env, ok, err, pure, fail, ◌>>=◌, ◌>>◌, gets, fail_if, or_fail, wrap,
  in_transaction, read_on_pool,
}
use ficct_boutique_backend_g.InventoryRepo.{decrement_for_sale}
use ficct_boutique_backend_g.SalesRepo
use ficct_boutique_backend_g.OrderRepo
use ficct_boutique_backend_g.OutboxRepo
use ficct_boutique_backend_g.CatalogRepo.{find_variant, find_product}
use Code.{order_code}

pub record CreateSaleItemInput : Type 0 where
  pub variant_id : Uuid
  pub quantity : ℤ

pub record CreateSaleInput : Type 0 where
  pub customer_id : Option Uuid
  pub customer_user_id : Option Uuid
  pub branch_id : Uuid
  pub cashier_id : Option Uuid
  pub items : List CreateSaleItemInput

-- `unitPrice := p.BasePrice`, replaced by the variant's own price if it has one.
abbrev pub unit_price : Float64 → Option Float64 → Float64
unit_price base none = base
unit_price base (some price) = price

-- The fields that the code leaves out are the zero values of Go.
abbrev pub priced : Float64Ops → CreateSaleItemInput → Float64 → SaleItem
priced F it price = record {
  id = 0;
  sale_id = 0;
  variant_id = it.variant_id;
  quantity = it.quantity;
  unit_price = price;
  line_total = F.mul price (F.of_int it.quantity);
  created_at = 0;
}

unfoldable pub price_item : Float64Ops → CreateSaleItemInput → Tx SaleItem
price_item F it = do
  v ← wrap (Error.of_variant it.variant_id) (find_variant it.variant_id)
  p ← wrap (Error.of_product_for_variant it.variant_id) (find_product v.product_id)
  pure (priced F it (unit_price p.base_price v.price_override))

unfoldable pub price_items : Float64Ops → List CreateSaleItemInput → Tx (List SaleItem)
unfolding price_item
price_items F [] = pure []
price_items F (it ∷ items) = do row ← price_item F it; rest ← price_items F items; pure (row ∷ rest)

abbrev pub is_empty {ℓ} : {A : Type ℓ} → List A → Bool
is_empty [] = true
is_empty (x ∷ xs) = false

-- `customerID == nil && in.CustomerUserID != nil`
abbrev pub sale_customer : Env → Option Uuid → Option Uuid → Tx (Option Uuid)
sale_customer env (some c) user = pure (some c)
sale_customer env none none = pure none
sale_customer env none (some user) = do
  c ← SalesRepo.ensure_customer_for_user env user
  pure (some c)

-- The transaction of CreateSale.
unfoldable pub save_sale :
    Float64Ops → Env → CreateSaleInput → List SaleItem → Tx (Sale × List SaleItem)
save_sale F env input items = do
  customer ← sale_customer env input.customer_id input.customer_user_id
  SalesRepo.create_with_items F env customer input.branch_id input.cashier_id items

unfoldable pub create_sale : Float64Ops → Env → CreateSaleInput → Tx (Sale × List SaleItem)
create_sale F env input = do
  fail_if (is_empty input.items) Error.empty_sale_items
  items ← price_items F input.items
  in_transaction env (save_sale F env input items)

pub record ConfirmSaleResult : Type 0 where
  pub sale : Sale
  pub order : Order

-- The loop over the items.
unfoldable pub decrement_items : Env → Uuid → List SaleItem → Tx (Unit {0})
decrement_items env branch [] = pure tt
decrement_items env branch (it ∷ items) = do
  wrap (Error.of_decrement it.variant_id) (decrement_for_sale env it.variant_id branch it.quantity)
  decrement_items env branch items

-- `customer := SaleConfirmedCustomerPayload{ID: confirmed.CustomerID}`, with the contact if any.
unfoldable pub customer_payload : Option Uuid → Tx SaleConfirmedCustomerPayload
customer_payload none = pure (record { id = none; name = ""; email = "" })
customer_payload (some c) = do
  contact ← SalesRepo.find_customer_contact c
  pure (record { id = some c; name = contact.name; email = contact.email })

unfoldable pub build_sale_confirmed_webhook_payload :
    Sale → Order → List SaleItem → SaleConfirmedCustomerPayload → SaleConfirmedWebhookPayload
build_sale_confirmed_webhook_payload confirmed order items customer = record {
  event = "sale.confirmed";
  sale_id = confirmed.id;
  order_id = order.id;
  order_code = order.code;
  branch_id = confirmed.branch_id;
  total = confirmed.total;
  currency = confirmed.currency;
  confirmed_at = confirmed.confirmed_at;
  items = items;
  customer = customer;
}

unfoldable pub enqueue_confirmed : Env → String → Sale → Order → List SaleItem → Tx WebhookEvent
enqueue_confirmed env url confirmed order items = do
  customer ← customer_payload confirmed.customer_id
  OutboxRepo.enqueue env "sale.confirmed" confirmed.id
      (build_sale_confirmed_webhook_payload confirmed order items customer) url

-- `if s.webhookTargetURL != "" { … }`
unfoldable pub notify : Env → String → Sale → Order → List SaleItem → Tx (Unit {0})
notify env url confirmed order items =
    if str_eq url "" then pure tt else do enqueue_confirmed env url confirmed order items; pure tt

-- What ConfirmSale does inside its transaction, after the sale was read as `sale` and `items`.
unfoldable pub confirm_read : Env → String → Sale × List SaleItem → Tx ConfirmSaleResult
confirm_read env url (sale, items) = do
  fail_if (not (is_pending sale.status)) Error.sale_not_pending
  decrement_items env sale.branch_id items
  confirmed ← SalesRepo.confirm env sale.id
  order ← OrderRepo.create_for_sale env confirmed.id (order_code env.date env.random_id)
  notify env url confirmed order items
  pure (record { sale = confirmed; order = order })

-- The sale is read on the pool, outside the transaction that was begun.
unfoldable pub confirm_sale : Env → String → Uuid → Tx ConfirmSaleResult
confirm_sale env url sale db =
    in_transaction env (do read ← read_on_pool (SalesRepo.find sale) db; confirm_read env url read)
      db
