-- ===== src/Mutations/Selling.antt =====
-- graph/mutations.go: createSale and confirmSale.
use ficct_boutique_backend_g.Base.{
  String, Bool, true, false, Option, none, some, List, ◌==◌, not, if◌then◌else◌,
}
use ficct_boutique_backend_g.Models.{Uuid, Sale, SaleItem, Order}
use ficct_boutique_backend_g.Float.{Float64Ops}
use ficct_boutique_backend_g.Store.{Error, Tx, Env, Outcome, ok, err, ◌>>◌}
use ficct_boutique_backend_g.Authz.{Context, check, require_auth, is_admin_or_staff, subject_uuid}
use ficct_boutique_backend_g.SalesRepo.{owner_user_id}
use ficct_boutique_backend_g.SalesService.{
  CreateSaleInput, CreateSaleItemInput, create_sale, confirm_sale, ConfirmSaleResult,
}

-- The argument of createSale.
pub record CreateSaleArgs : Type 0 where
  pub customer_id : Option Uuid
  pub branch_id : Uuid
  pub items : List CreateSaleItemInput

-- Who buys and who sells, from the caller's claims: staff act as cashiers for the customer that
-- they name, anybody else buys for themselves. Where the subject is no UUID, nobody is recorded.
abbrev pub sale_input : Bool → Option Uuid → CreateSaleArgs → CreateSaleInput
sale_input staff none args = record {
  customer_id = none;
  customer_user_id = none;
  branch_id = args.branch_id;
  cashier_id = none;
  items = args.items;
}
sale_input true (some uid) args = record {
  customer_id = args.customer_id;
  customer_user_id = none;
  branch_id = args.branch_id;
  cashier_id = some uid;
  items = args.items;
}
sale_input false (some uid) args = record {
  customer_id = none;
  customer_user_id = some uid;
  branch_id = args.branch_id;
  cashier_id = none;
  items = args.items;
}

-- `if err != nil || owner != uid { return nil, ErrForbidden }`
abbrev pub owner_check : Uuid → Outcome Uuid → Outcome (Unit {0})
owner_check uid (ok owner w) = if not (owner == uid) then err Error.forbidden w else ok tt w
owner_check uid (err e w) = err Error.forbidden w

-- The subject of the claims must be a UUID.
abbrev pub check_subject : Option Uuid → Uuid → Tx (Unit {0})
check_subject none sale db = err Error.unauthenticated db
check_subject (some uid) sale db = owner_check uid (owner_user_id sale db)

-- `errors.Is(err, service.ErrSaleNotPending)`: the service returns it unwrapped.
abbrev pub rename_not_pending : Error → Error
rename_not_pending Error.sale_not_pending = Error.sale_not_in_pending_status
rename_not_pending e = e

abbrev pub order_answer : Outcome ConfirmSaleResult → Outcome Order
order_answer (ok r w) = ok r.order w
order_answer (err e w) = err (rename_not_pending e) w

module _ (parse : String → Option Uuid) where
  unfoldable pub create_sale_mutation :
      Float64Ops → Env → Context → CreateSaleArgs → Tx (Sale × List SaleItem)
  create_sale_mutation F env ctx args = do
    check (require_auth ctx)
    create_sale F env (sale_input (is_admin_or_staff ctx) (subject_uuid parse ctx) args)

  -- `if !isAdminOrStaff(ctx) { … }`
  unfoldable pub check_owner : Context → Uuid → Tx (Unit {0})
  check_owner ctx sale db =
      if is_admin_or_staff ctx then ok tt db else check_subject (subject_uuid parse ctx) sale db

  unfoldable pub confirm_sale_mutation : Env → String → Context → Uuid → Tx Order
  confirm_sale_mutation env url ctx sale = do
    check (require_auth ctx)
    check_owner ctx sale
    (λ db. order_answer (confirm_sale env url sale db))
