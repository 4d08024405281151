-- ===== src/Examples/Confirming.antt =====
-- The theorems on ConfirmSale at the shop of `Examples`.
use ficct_boutique_backend_g.Base.{◌≡◌, refl, some, [], ◌∷◌, String, order_by, arith}
use ficct_boutique_backend_g.Base.Int.{pos, ◌-ℤ◌, ◌+ℤ◌}
use ficct_boutique_backend_g.Models.{Sale, Order}
use ficct_boutique_backend_g.Store.{Db, Error, ok, err, IsOk, after, in_transaction}
use ficct_boutique_backend_g.InventoryRepo.{take_stock, decrement_for_sale}
use ficct_boutique_backend_g.InventoryRepo.Sound.{IsSound}
use ficct_boutique_backend_g.SalesRepo.{
  confirmed_now, find, items_of, confirm, find_customer_contact,
}
use ficct_boutique_backend_g.OrderRepo.{new_order, create_for_sale}
use ficct_boutique_backend_g.OutboxRepo.{enqueue, new_event}
use ficct_boutique_backend_g.SalesService.Code.{order_code}
use ficct_boutique_backend_g.SalesService.{
  ConfirmSaleResult, confirm_sale, confirm_read, decrement_items, notify, enqueue_confirmed,
  customer_payload, build_sale_confirmed_webhook_payload,
}
use ficct_boutique_backend_g.SalesService.Confirm.{Confirmed, confirm_sale-Confirmed}
use ficct_boutique_backend_g.SalesService.Refuse.{
  confirm_sale_once, confirm_read_stale, confirm_sale_short,
}
use ficct_boutique_backend_g.SalesService.Clash.{confirm_sale_code_taken}
use ficct_boutique_backend_g.SalesService.Webhook.{Told, confirm_sale-Told}
use ficct_boutique_backend_g.Examples.{env_at, shop, draft, stock_row, line}

abbrev pub sale_made : Sale
sale_made = confirmed_now (env_at 1) draft

abbrev pub order_made : Order
order_made = new_order (env_at 1) 7 (order_code "20260610" 70043)

abbrev pub result : ConfirmSaleResult
result = record { sale = sale_made; order = order_made }

abbrev pub shop_after : Db
shop_after = record shop {
  inventory = take_stock (env_at 1) (pos 3) stock_row ∷ [];
  sales = sale_made ∷ [];
  orders = order_made ∷ [];
}

pub shop-IsSound : IsSound shop.inventory
shop-IsSound = record { nonneg = omega arith; unique = (refl, tt) }

-- Three blouses of ten are sold.
pub confirms : confirm_sale (env_at 1) "" 7 shop ≡ ok result shop_after
unfolding confirm_sale in_transaction find items_of order_by confirm_read decrement_items
    decrement_for_sale confirm create_for_sale notify ◌-ℤ◌
confirms = refl

confirm_sale-Confirmed_example : Confirmed (env_at 1) "" 7 shop shop_after result
confirm_sale-Confirmed_example =
    confirm_sale-Confirmed (env_at 1) "" 7 shop shop_after result shop-IsSound confirms

-- A second line asks for eight more.
abbrev greedy : Db
greedy = record shop { sale_items = line ∷ record line { id = 9; quantity = pos 8 } ∷ [] }

confirm_sale_short_example : ¬ IsOk (confirm_sale (env_at 1) "" 7 greedy)
unfolding items_of order_by ◌+ℤ◌
confirm_sale_short_example =
    confirm_sale_short (env_at 1) "" 7 greedy draft 5 (pos 10) shop-IsSound refl refl (omega arith)

confirm_sale_once_example :
    confirm_sale (env_at 2) "https://hook" 7 shop_after ≡ err Error.sale_not_pending shop_after
confirm_sale_once_example =
    confirm_sale_once (env_at 1) (env_at 2) "" "https://hook" 7 shop shop_after result shop-IsSound
      confirms refl

confirm_read_stale_example :
    ¬ IsOk (in_transaction (env_at 2) (confirm_read (env_at 2) "" (draft, line ∷ [])) shop_after)
    × (after (in_transaction (env_at 2) (confirm_read (env_at 2) "" (draft, line ∷ [])) shop_after)
        ≡ shop_after)
confirm_read_stale_example =
    confirm_read_stale (env_at 1) (env_at 2) "" draft (line ∷ []) shop shop_after result confirms

abbrev crm : String
crm = "http://localhost:8001/api/v1/webhooks/sale-confirmed/"

abbrev told : Db
told = record shop_after {
  outbox =
      new_event (env_at 1) "sale.confirmed" 7
        (build_sale_confirmed_webhook_payload sale_made order_made (line ∷ [])
          (record { id = some 2; name = "Maria Cliente"; email = "maria@ficct.bo" }))
        crm
      ∷ [];
}

confirms_and_tells : confirm_sale (env_at 1) crm 7 shop ≡ ok result told
unfolding confirm_sale in_transaction find items_of order_by confirm_read decrement_items
    decrement_for_sale confirm create_for_sale notify enqueue_confirmed customer_payload
    find_customer_contact enqueue build_sale_confirmed_webhook_payload ◌-ℤ◌
confirms_and_tells = refl

confirm_sale-Told_example : Told (env_at 1) crm 7 result shop told
confirm_sale-Told_example = confirm_sale-Told (env_at 1) crm 7 shop told result confirms_and_tells

-- An order of the day has the code that the call draws.
abbrev clashing : Db
clashing = record shop { orders = record order_made { id = 99; sale_id = 98 } ∷ [] }

confirm_sale_code_taken_example : ¬ IsOk (confirm_sale (env_at 1) "" 7 clashing)
unfolding order_code
confirm_sale_code_taken_example = confirm_sale_code_taken (env_at 1) "" 7 clashing refl
