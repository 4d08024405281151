-- ===== src/System/Served.antt =====
-- graph/mutations.go: the mutations that write to the table `inventory`, or decide first who may write.
use ficct_boutique_backend_g.Base.{
  String, Option, none, some, List, [], ◌∷◌, ◌||◌, not, arith, inl, inr, Bool-cases,
}
use ficct_boutique_backend_g.Base.Int.{ℤ, pos, ltb_ℤ}
use ficct_boutique_backend_g.Models.{Uuid, is_pending, Sale, SaleItem}
use ficct_boutique_backend_g.Store.{
  Env, Tx, Error, Outcome, ok, err, after, ◌>>=◌, ◌>>◌, wrap, read_on_pool,
}
use ficct_boutique_backend_g.Store.Keeps.{
  Keeps, >>=-Keeps, fail_if-Keeps, or_fail-Keeps, wrap-Keeps, in_transaction-Keeps,
  read_on_pool-Keeps,
}
use ficct_boutique_backend_g.Authz.{
  Context, check, require_auth, require_admin_or_staff, is_admin_or_staff, subject_uuid,
  parse_or_fail,
}
use ficct_boutique_backend_g.InventoryRepo.{decrement_for_sale}
use ficct_boutique_backend_g.InventoryRepo.Sound.{
  IsSound, upsert-IsSound, set_stock-IsSound, adjust_stock-IsSound, set_reorder_level-IsSound,
  decrement_for_sale-IsSound,
}
use ficct_boutique_backend_g.CatalogService
use ficct_boutique_backend_g.SalesRepo
use ficct_boutique_backend_g.SalesRepo.{owner_user_id}
use ficct_boutique_backend_g.OrderRepo
use ficct_boutique_backend_g.SalesService.{
  ConfirmSaleResult, decrement_items, confirm_read, confirm_sale, notify,
}
use ficct_boutique_backend_g.SalesService.Code.{order_code}
use ficct_boutique_backend_g.Text.{trim_space, is_blank}
use ficct_boutique_backend_g.PushTokenRepo
use ficct_boutique_backend_g.Mutations.Selling.{
  check_subject, check_owner, order_answer, confirm_sale_mutation,
}
use ficct_boutique_backend_g.Mutations.Stocking
use ficct_boutique_backend_g.Mutations.Registering.{
  register_push_token, unregister_push_token, subject_of, platform_of,
}
use ficct_boutique_backend_g.System.Selling.{confirm-Keeps, create_order-Keeps, notify-Keeps}
use ficct_boutique_backend_g.System.Devices.{upsert_token-Keeps, deactivate-Keeps}

abbrev pub KeepsSound : {A : Type 0} → Tx A → Type 0
KeepsSound = Keeps IsSound

pub check-Keeps :
    {A : Type 0} (o : Option Error) (k : Tx A) → KeepsSound k → KeepsSound (check o >> k)
check-Keeps none k l db p = l db p
check-Keeps (some e) k l db p = p

-- The loop of a confirmation takes from the stock no more than there is.
decrement_items-Keeps :
    (env : Env) (branch : Uuid) (items : List SaleItem)
    → KeepsSound (decrement_items env branch items)
unfolding decrement_items
decrement_items-Keeps env branch [] db p = p
decrement_items-Keeps env branch (it ∷ items) db p =
    let taken = decrement_for_sale env it.variant_id branch it.quantity in
    >>=-Keeps IsSound (wrap (Error.of_decrement it.variant_id) taken) _
      (wrap-Keeps IsSound _ taken (decrement_for_sale-IsSound env it.variant_id branch it.quantity))
      (λ u. decrement_items-Keeps env branch items) db p

confirm_read-Keeps :
    (env : Env) (url : String) (s : Sale) (items : List SaleItem)
    → KeepsSound (confirm_read env url (s, items))
unfolding confirm_read
confirm_read-Keeps env url s items =
    fail_if-Keeps IsSound (not (is_pending s.status)) Error.sale_not_pending _ (
      >>=-Keeps IsSound (decrement_items env s.branch_id items) _
        (decrement_items-Keeps env s.branch_id items)
        λ u. >>=-Keeps IsSound (SalesRepo.confirm env s.id) _ (confirm-Keeps IsSound env s.id) λ c.
          >>=-Keeps IsSound (OrderRepo.create_for_sale env c.id (order_code env.date env.random_id))
            _ (create_order-Keeps IsSound env c.id (order_code env.date env.random_id))
            λ o.
              >>=-Keeps IsSound (notify env url c o items) _
                (notify-Keeps IsSound env url c o items) λ v d q. q)

confirm_sale-Keeps :
    (env : Env) (url : String) (sale : Uuid) → KeepsSound (confirm_sale env url sale)
unfolding confirm_sale
confirm_sale-Keeps env url sale db =
    in_transaction-Keeps IsSound env
      (read_on_pool (SalesRepo.find sale) db >>= confirm_read env url)
      (>>=-Keeps IsSound (read_on_pool (SalesRepo.find sale) db) _
        (read_on_pool-Keeps IsSound (SalesRepo.find sale) db)
        λ read. confirm_read-Keeps env url read.0 read.1)
      db

order_answer-Keeps :
    (env : Env) (url : String) (sale : Uuid)
    → KeepsSound (λ db. order_answer (confirm_sale env url sale db))
order_answer-Keeps env url sale db p =
    go (confirm_sale env url sale db) (confirm_sale-Keeps env url sale db p)
  where
    go :
        (o : Outcome ConfirmSaleResult)
        → IsSound (after o).inventory
        → IsSound (after (order_answer o)).inventory
    go (ok r w) q = q
    go (err e w) q = q

check_subject-Keeps :
    (subject : Option Uuid) (sale : Uuid) → KeepsSound (check_subject subject sale)
unfolding owner_user_id
check_subject-Keeps none sale db p = p
check_subject-Keeps (some uid) sale db p = ground (arith, p)

check_owner-Keeps :
    (parse : String → Option Uuid) (ctx : Context) (sale : Uuid)
    → KeepsSound (check_owner parse ctx sale)
unfolding check_owner
check_owner-Keeps parse ctx sale db p = elim (Bool-cases (is_admin_or_staff ctx)) [
  | inl staff ↦ rw staff p
  | inr other ↦ rw other (check_subject-Keeps (subject_uuid parse ctx) sale db p)
]

pub confirm_sale_mutation-Keeps :
    (parse : String → Option Uuid) (env : Env) (url : String) (ctx : Context) (sale : Uuid)
    → KeepsSound (confirm_sale_mutation parse env url ctx sale)
unfolding confirm_sale_mutation
confirm_sale_mutation-Keeps parse env url ctx sale = check-Keeps (require_auth ctx) _ (
    >>=-Keeps IsSound (check_owner parse ctx sale) _ (check_owner-Keeps parse ctx sale)
      λ u. order_answer-Keeps env url sale)

module _ (env : Env) (ctx : Context) where
  pub upsert_inventory-Keeps :
      (v b : Uuid) (q r : ℤ) → KeepsSound (Stocking.upsert_inventory env ctx v b q r)
  unfolding Stocking.upsert_inventory CatalogService.upsert_inventory
  upsert_inventory-Keeps v b q r = check-Keeps (require_admin_or_staff ctx) _ (
      fail_if-Keeps IsSound (ltb_ℤ q (pos 0) || ltb_ℤ r (pos 0)) Error.invalid_input _
        (upsert-IsSound env v b q r))

  pub set_inventory_stock-Keeps :
      (v b : Uuid) (q : ℤ) → KeepsSound (Stocking.set_inventory_stock env ctx v b q)
  unfolding Stocking.set_inventory_stock
  set_inventory_stock-Keeps v b q = check-Keeps (require_admin_or_staff ctx) _ (
      fail_if-Keeps IsSound (ltb_ℤ q (pos 0)) Error.negative_quantity _
        (set_stock-IsSound env v b q))

  pub adjust_inventory_stock-Keeps :
      (v b : Uuid) (delta : ℤ) → KeepsSound (Stocking.adjust_inventory_stock env ctx v b delta)
  unfolding Stocking.adjust_inventory_stock
  adjust_inventory_stock-Keeps v b delta =
      check-Keeps (require_admin_or_staff ctx) _ (adjust_stock-IsSound env v b delta)

  pub update_inventory_reorder_level-Keeps :
      (v b : Uuid) (level : ℤ)
      → KeepsSound (Stocking.update_inventory_reorder_level env ctx v b level)
  unfolding Stocking.update_inventory_reorder_level
  update_inventory_reorder_level-Keeps v b level = check-Keeps (require_admin_or_staff ctx) _ (
      fail_if-Keeps IsSound (ltb_ℤ level (pos 0)) Error.negative_reorder_level _
        (set_reorder_level-IsSound env v b level))

  module _ (parse : String → Option Uuid) where
    pub parse-Keeps : (s : String) → KeepsSound (parse_or_fail parse s)
    parse-Keeps s db p = ground (arith, p)

    pub register-Keeps :
        (token platform : String) (device : Option String)
        → KeepsSound (register_push_token parse env ctx token platform device)
    unfolding register_push_token
    register-Keeps token platform device = check-Keeps (require_auth ctx) _ (
        >>=-Keeps IsSound (parse_or_fail parse (subject_of ctx)) _ (parse-Keeps (subject_of ctx))
          λ uid. fail_if-Keeps IsSound (is_blank (trim_space token)) Error.token_required _ (
            or_fail-Keeps IsSound Error.unknown_platform (platform_of platform) _
              λ p. upsert_token-Keeps IsSound env uid (trim_space token) p device))

    pub unregister-Keeps : (token : String) → KeepsSound (unregister_push_token parse env ctx token)
    unfolding unregister_push_token
    unregister-Keeps token = check-Keeps (require_auth ctx) _ (
        >>=-Keeps IsSound (parse_or_fail parse (subject_of ctx)) _ (parse-Keeps (subject_of ctx))
          λ uid. fail_if-Keeps IsSound (is_blank (trim_space token)) Error.token_required _ (
            >>=-Keeps IsSound (PushTokenRepo.deactivate env uid (trim_space token)) _
              (deactivate-Keeps IsSound env uid (trim_space token)) λ u d q. q))
