-- ===== src/Queries.antt =====
-- graph/queries.go: the queries on products, sales, orders, the inventory and the caller's devices,
-- from the claims of the caller to the repositories. A resolver object around a row is the row.
pub mod Visible
pub mod Grid
pub mod Listing
use ficct_boutique_backend_g.Base.{
  String, Bool, true, false, Option, none, some, List, if◌then◌else◌,
}
use ficct_boutique_backend_g.Base.Int.{ℤ, pos}
use ficct_boutique_backend_g.Models.{
  Uuid, Product, Inventory, Sale, SaleItem, Order, PushToken, User,
}
use ficct_boutique_backend_g.Store.{Db, Error, Tx, Outcome, ok, err, ◌>>=◌, ◌>>◌}
use ficct_boutique_backend_g.Authz.{
  Context, check, require_auth, require_admin_or_staff, is_admin_or_staff, parse_or_fail,
  subject_uuid,
}
use ficct_boutique_backend_g.CatalogRepo.{find_product, list_products}
use ficct_boutique_backend_g.InventoryRepo.{by_branch}
use ficct_boutique_backend_g.OrderRepo
use ficct_boutique_backend_g.PushTokenRepo.{list_active_by_user}
use ficct_boutique_backend_g.SalesRepo
use ficct_boutique_backend_g.UserRepo.{find_by_id}
use ficct_boutique_backend_g.Mutations.Registering.{subject_of}

-- `if args.X != nil { … }`, from a default.
abbrev pub number_or : ℤ → Option ℤ → ℤ
number_or default none = default
number_or default (some x) = x

abbrev pub asks_for : Option Bool → Bool
asks_for none = false
asks_for (some b) = b

-- `errors.Is(err, repository.ErrNotFound)`: null.
abbrev pub null_if_missing : {A : Type 0} → Outcome A → Outcome (Option A)
null_if_missing (ok a w) = ok (some a) w
null_if_missing (err Error.not_found w) = ok none w
null_if_missing (err e w) = err e w

unfoldable pub product : Uuid → Tx (Option Product)
product id db = null_if_missing (find_product id db)

-- `if err := requireAdminOrStaff(ctx); err == nil { includeInactive = true }`
abbrev pub is_let_through : Option Error → Bool
is_let_through none = true
is_let_through (some e) = false

abbrev pub may_include : Context → Option Bool → Bool
may_include ctx include =
    if asks_for include then is_let_through (require_admin_or_staff ctx) else false

unfoldable pub products :
    (String → String → Bool)
    → Context
    → Option String
    → Option String
    → Option Bool
    → Option ℤ
    → Option ℤ
    → Tx (List Product)
products ilike ctx category search include limit offset =
    list_products ilike category search (may_include ctx include) (number_or (pos 50) limit)
      (number_or (pos 0) offset)

unfoldable pub inventory_by_branch : Context → Uuid → Tx (List Inventory)
inventory_by_branch ctx branch = do check (require_admin_or_staff ctx); by_branch branch

unfoldable pub sale : Context → Uuid → Tx (Option (Sale × List SaleItem))
sale ctx id = do check (require_auth ctx); (λ db. null_if_missing (SalesRepo.find id db))

unfoldable pub order : Context → Uuid → Tx (Option Order)
order ctx id = do check (require_auth ctx); (λ db. null_if_missing (OrderRepo.find id db))

module _ (parse : String → Option Uuid) where
  -- Where the request has no claims the answer is null.
  unfoldable pub me : Context → Tx (Option User)
  me none db = ok none db
  me (some c) db = elim (parse c.subject) [
    | none ↦ err Error.invalid_uuid db
    | some uid ↦ null_if_missing (find_by_id uid db)
  ]

  -- The two branches on the caller.
  abbrev pub orders_of_caller : Bool → Option Uuid → Option String → ℤ → ℤ → Tx (List Order)
  orders_of_caller true u status limit offset = OrderRepo.list status limit offset
  orders_of_caller false none status limit offset = λ db. err Error.unauthenticated db
  orders_of_caller false (some uid) status limit offset =
      OrderRepo.list_by_user uid status limit offset

  unfoldable pub orders : Context → Option String → Option ℤ → Option ℤ → Tx (List Order)
  orders ctx status limit offset = do
    check (require_auth ctx)
    orders_of_caller (is_admin_or_staff ctx) (subject_uuid parse ctx) status
        (number_or (pos 50) limit) (number_or (pos 0) offset)

  unfoldable pub my_push_tokens : Context → Tx (List PushToken)
  my_push_tokens ctx = do
    check (require_auth ctx)
    uid ← parse_or_fail parse (subject_of ctx)
    list_active_by_user uid
