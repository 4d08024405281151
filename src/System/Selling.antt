-- ===== src/System/Selling.antt =====
-- CreateSale, and the statements of ConfirmSale on the other tables, seen from the table `inventory`.
use ficct_boutique_backend_g.Base.{
  String, Option, none, some, List, [], ◌∷◌, ℕ, suc, find_where, ◌==◌, str_eq, arith,
}
use ficct_boutique_backend_g.Models.{
  Uuid, Inventory, Float64, Sale, SaleItem, Order, User, Customer, SaleConfirmedWebhookPayload,
}
use ficct_boutique_backend_g.Float.{Float64Ops}
use ficct_boutique_backend_g.Store.{Env, Error, pure, wrap, in_transaction, ◌>>◌}
use ficct_boutique_backend_g.Store.Keeps.{
  Keeps, >>=-Keeps, fail_if-Keeps, or_fail-Keeps, wrap-Keeps, in_transaction-Keeps, row-Keeps,
  if-Keeps,
}
use ficct_boutique_backend_g.CatalogRepo
use ficct_boutique_backend_g.SalesRepo
use ficct_boutique_backend_g.OrderRepo
use ficct_boutique_backend_g.OutboxRepo
use ficct_boutique_backend_g.SalesService.{
  CreateSaleInput, CreateSaleItemInput, price_item, price_items, save_sale, create_sale,
  sale_customer, customer_payload, enqueue_confirmed, notify, is_empty,
}

module _ (P : List Inventory → Type 0) where
  price_item-Keeps : (F : Float64Ops) (it : CreateSaleItemInput) → Keeps P (price_item F it)
  unfolding price_item CatalogRepo.find_variant CatalogRepo.find_product
  price_item-Keeps F it =
      let variant =
        wrap (Error.of_variant it.variant_id) (CatalogRepo.find_variant it.variant_id) in
      >>=-Keeps P variant _
        (wrap-Keeps P _ (CatalogRepo.find_variant it.variant_id) λ db. row-Keeps P _ _ db)
        λ v.
          let product =
            wrap (Error.of_product_for_variant it.variant_id)
              (CatalogRepo.find_product v.product_id) in
          >>=-Keeps P product _
            (wrap-Keeps P _ (CatalogRepo.find_product v.product_id) λ db. row-Keeps P _ _ db)
            λ p d q. q

  price_items-Keeps :
      (F : Float64Ops) (items : List CreateSaleItemInput) → Keeps P (price_items F items)
  unfolding price_items
  price_items-Keeps F [] db p = p
  price_items-Keeps F (it ∷ items) db p =
      >>=-Keeps P (price_item F it) _ (price_item-Keeps F it)
        (λ row. >>=-Keeps P (price_items F items) _ (price_items-Keeps F items) λ rest d q. q) db p

  upsert_customer-Keeps :
      (env : Env) (u : User) (rows : List Customer) (c : Option Customer)
      → Keeps P (SalesRepo.upsert_customer env u rows c)
  upsert_customer-Keeps env u rows (some c) db p = p
  upsert_customer-Keeps env u rows none db p = search (fail_if-Keeps P, p)

  ensure_customer-Keeps :
      (env : Env) (user : Uuid) → Keeps P (SalesRepo.ensure_customer_for_user env user)
  unfolding SalesRepo.ensure_customer_for_user
  ensure_customer-Keeps env user db p =
      or_fail-Keeps P Error.not_found (find_where (λ x. x.id == user) db.users) _
        (λ u d q. upsert_customer-Keeps env u d.customers _ d q) db p

  sale_customer-Keeps :
      (env : Env) (customer user : Option Uuid) → Keeps P (sale_customer env customer user)
  sale_customer-Keeps env (some c) user db p = p
  sale_customer-Keeps env none none db p = p
  sale_customer-Keeps env none (some user) db p =
      >>=-Keeps P (SalesRepo.ensure_customer_for_user env user) _ (ensure_customer-Keeps env user)
        (λ c d q. q) db p

  insert_sale-Keeps :
      (F : Float64Ops) (env : Env) (customer : Option Uuid) (branch : Uuid) (cashier : Option Uuid)
      (subtotal tax total : Float64)
      → Keeps P (SalesRepo.insert_sale F env customer branch cashier subtotal tax total)
  unfolding SalesRepo.insert_sale
  insert_sale-Keeps F env customer branch cashier subtotal tax total db p =
      search (or_fail-Keeps P, fail_if-Keeps P, p)

  insert_sale_item-Keeps :
      (F : Float64Ops) (env : Env) (k : ℕ) (sale : Uuid) (it : SaleItem)
      → Keeps P (SalesRepo.insert_sale_item F env k sale it)
  unfolding SalesRepo.insert_sale_item
  insert_sale_item-Keeps F env k sale it db p = search (or_fail-Keeps P, fail_if-Keeps P, p) depth 8

  insert_sale_items-Keeps :
      (F : Float64Ops) (env : Env) (k : ℕ) (sale : Uuid) (items : List SaleItem)
      → Keeps P (SalesRepo.insert_sale_items F env k sale items)
  unfolding SalesRepo.insert_sale_items
  insert_sale_items-Keeps F env k sale [] db p = p
  insert_sale_items-Keeps F env k sale (it ∷ items) db p =
      >>=-Keeps P (SalesRepo.insert_sale_item F env k sale it) _
        (insert_sale_item-Keeps F env k sale it)
        (λ row.
          >>=-Keeps P (SalesRepo.insert_sale_items F env (suc k) sale items) _
            (insert_sale_items-Keeps F env (suc k) sale items) λ rest d q. q)
        db p

  create_with_items-Keeps :
      (F : Float64Ops) (env : Env) (customer : Option Uuid) (branch : Uuid) (cashier : Option Uuid)
      (items : List SaleItem)
      → Keeps P (SalesRepo.create_with_items F env customer branch cashier items)
  unfolding SalesRepo.create_with_items
  create_with_items-Keeps F env customer branch cashier items =
      >>=-Keeps P (SalesRepo.insert_sale F env customer branch cashier _ _ _) _
        (insert_sale-Keeps F env customer branch cashier _ _ _)
        λ sale.
          >>=-Keeps P (SalesRepo.insert_sale_items F env 2 sale.id items) _
            (insert_sale_items-Keeps F env 2 sale.id items) λ out d q. q

  save_sale-Keeps :
      (F : Float64Ops) (env : Env) (input : CreateSaleInput) (items : List SaleItem)
      → Keeps P (save_sale F env input items)
  unfolding save_sale
  save_sale-Keeps F env input items =
      >>=-Keeps P (sale_customer env input.customer_id input.customer_user_id) _
        (sale_customer-Keeps env input.customer_id input.customer_user_id)
        λ customer. create_with_items-Keeps F env customer input.branch_id input.cashier_id items

  pub create_sale-Keeps :
      (F : Float64Ops) (env : Env) (input : CreateSaleInput) → Keeps P (create_sale F env input)
  unfolding create_sale
  create_sale-Keeps F env input =
      let priced =
        >>=-Keeps P (price_items F input.items)
          (λ items. in_transaction env (save_sale F env input items))
          (price_items-Keeps F input.items)
          λ items.
            in_transaction-Keeps P env (save_sale F env input items)
              (save_sale-Keeps F env input items) in
      fail_if-Keeps P (is_empty input.items) Error.empty_sale_items _ priced

  pub confirm-Keeps : (env : Env) (sale : Uuid) → Keeps P (SalesRepo.confirm env sale)
  unfolding SalesRepo.confirm
  confirm-Keeps env sale db p =
      or_fail-Keeps P Error.not_found (find_where (SalesRepo.is_pending_sale sale) db.sales) _
        (λ row d q. q) db p

  pub create_order-Keeps :
      (env : Env) (sale : Uuid) (code : String) → Keeps P (OrderRepo.create_for_sale env sale code)
  unfolding OrderRepo.create_for_sale
  create_order-Keeps env sale code db p = search (fail_if-Keeps P, p)

  enqueue-Keeps :
      (env : Env) (kind : String) (sale : Uuid) (payload : SaleConfirmedWebhookPayload)
      (url : String)
      → Keeps P (OutboxRepo.enqueue env kind sale payload url)
  unfolding OutboxRepo.enqueue
  enqueue-Keeps env kind sale payload url db p = search (fail_if-Keeps P, p)

  find_contact-Keeps : (c : Uuid) → Keeps P (SalesRepo.find_customer_contact c)
  unfolding SalesRepo.find_customer_contact
  find_contact-Keeps c db p = ground (arith, p)

  customer_payload-Keeps : (c : Option Uuid) → Keeps P (customer_payload c)
  unfolding customer_payload
  customer_payload-Keeps none db p = p
  customer_payload-Keeps (some c) db p =
      >>=-Keeps P (SalesRepo.find_customer_contact c) _ (find_contact-Keeps c) (λ contact d q. q) db
        p

  enqueue_confirmed-Keeps :
      (env : Env) (url : String) (s : Sale) (o : Order) (items : List SaleItem)
      → Keeps P (enqueue_confirmed env url s o items)
  unfolding enqueue_confirmed
  enqueue_confirmed-Keeps env url s o items =
      >>=-Keeps P (customer_payload s.customer_id) _ (customer_payload-Keeps s.customer_id)
        λ customer. enqueue-Keeps env "sale.confirmed" s.id _ url

  pub notify-Keeps :
      (env : Env) (url : String) (s : Sale) (o : Order) (items : List SaleItem)
      → Keeps P (notify env url s o items)
  unfolding notify
  notify-Keeps env url s o items =
      if-Keeps P (str_eq url "") (pure tt) (enqueue_confirmed env url s o items >> pure tt)
        (λ d q. q)
        (>>=-Keeps P (enqueue_confirmed env url s o items) _
          (enqueue_confirmed-Keeps env url s o items) λ e d q. q)
