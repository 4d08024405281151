-- ===== src/Mutations/Access.antt =====
-- Who may change the inventory and the catalog, and who may push to others: graph/mutations.go.
use ficct_boutique_backend_g.Base.{◌≡◌, refl, ap, String, Bool, false, Option, none, some, List}
use ficct_boutique_backend_g.Base.Int.{ℤ}
use ficct_boutique_backend_g.Float.{Float64Ops}
use ficct_boutique_backend_g.Models.{Uuid, Role, role_eq}
use ficct_boutique_backend_g.Store.{Db, Error, Tx, Env, err, ◌>>◌}
use ficct_boutique_backend_g.Authz.{Context, check, require_admin, require_admin_or_staff}
use ficct_boutique_backend_g.BranchRepo.{NewBranch}
use ficct_boutique_backend_g.CatalogRepo.{NewVariant, ProductChange}
use ficct_boutique_backend_g.Mutations.Stocking.{
  CreateProductArgs, upsert_inventory, set_inventory_stock, adjust_inventory_stock,
  update_inventory_reorder_level, create_collection, create_product, update_product, create_variant,
  deactivate_product, activate_product, replace_product_image, deactivate_variant, activate_variant,
  create_branch,
}
use ficct_boutique_backend_g.Mutations.Pushing.{PushSender, send_push_campaign}

-- The refusal of a caller with the given role, if any.
abbrev pub refusal : Context → Error
refusal none = Error.unauthenticated
refusal (some c) = Error.forbidden

-- The call is refused, with the right error, and changes nothing.
abbrev pub IsRefused : {A : Type 0} → Context → Tx A → Type 0
IsRefused ctx m = (db : Db) → m db ≡ err (refusal ctx) db

abbrev pub has_role : Context → Role → Bool
has_role none role = false
has_role (some c) role = role_eq c.role role

stopped :
    {A : Type 0} (ctx : Context) (o : Option Error) (k : Tx A)
    → o ≡ some (refusal ctx)
    → IsRefused ctx (check o >> k)
stopped ctx o k h db = ap (λ o. (check o >> k) db) h

require_admin-refusal :
    (ctx : Context) → has_role ctx Role.admin ≡ false → require_admin ctx ≡ some (refusal ctx)
unfolding require_admin
require_admin-refusal none h = refl
require_admin-refusal (some c) h = rw h refl

require_staff-refusal :
    (ctx : Context)
    → has_role ctx Role.admin ≡ false
    → has_role ctx Role.staff ≡ false
    → require_admin_or_staff ctx ≡ some (refusal ctx)
unfolding require_admin_or_staff
require_staff-refusal none h k = refl
require_staff-refusal (some c) h k = rw h (rw k refl)

-- A caller who is neither admin nor staff, or not logged in, cannot change the inventory: each of
-- its four mutations is refused before anything is read or written.
pub inventory-IsRefused :
    (env : Env) (ctx : Context) (variant branch : Uuid) (quantity level : ℤ)
    → has_role ctx Role.admin ≡ false
    → has_role ctx Role.staff ≡ false
    → IsRefused ctx (upsert_inventory env ctx variant branch quantity level)
      × IsRefused ctx (set_inventory_stock env ctx variant branch quantity)
      × IsRefused ctx (adjust_inventory_stock env ctx variant branch quantity)
      × IsRefused ctx (update_inventory_reorder_level env ctx variant branch level)
unfolding upsert_inventory set_inventory_stock adjust_inventory_stock update_inventory_reorder_level
inventory-IsRefused env ctx variant branch quantity level h k =
    let r = require_staff-refusal ctx h k in
    (stopped ctx _ _ r, stopped ctx _ _ r, stopped ctx _ _ r, stopped ctx _ _ r)

-- Only an admin can change the catalog or push to other users: for anybody else each of these
-- eleven mutations is refused before anything is read or written.
pub catalog-IsRefused :
    {Json : Type 0} (F : Float64Ops) (env : Env) (ctx : Context) (id doc : Uuid) (name : String)
    (text season : Option String) (args : CreateProductArgs) (change : ProductChange)
    (variant : NewVariant) (sender : Option (PushSender Json)) (title body : String)
    (users : Option (List Uuid)) (place : NewBranch)
    → has_role ctx Role.admin ≡ false
    → IsRefused ctx (create_collection env ctx name text season)
      × IsRefused ctx (create_product F env ctx args)
      × IsRefused ctx (update_product F env ctx id change)
      × IsRefused ctx (create_variant F env ctx variant)
      × IsRefused ctx (deactivate_product env ctx id)
      × IsRefused ctx (activate_product env ctx id)
      × IsRefused ctx (replace_product_image env ctx id doc)
      × IsRefused ctx (deactivate_variant env ctx id)
      × IsRefused ctx (activate_variant env ctx id)
      × IsRefused ctx (send_push_campaign sender ctx title body users)
      × IsRefused ctx (create_branch env ctx place)
unfolding create_collection create_product update_product create_variant deactivate_product
    activate_product replace_product_image deactivate_variant activate_variant send_push_campaign
    create_branch
catalog-IsRefused F env ctx id doc name text season args change variant sender title body users
      place h =
    let r = require_admin-refusal ctx h in
    (
      stopped ctx _ _ r,
      stopped ctx _ _ r,
      stopped ctx _ _ r,
      stopped ctx _ _ r,
      stopped ctx _ _ r,
      stopped ctx _ _ r,
      stopped ctx _ _ r,
      stopped ctx _ _ r,
      stopped ctx _ _ r,
      stopped ctx _ _ r,
      stopped ctx _ _ r,
    )
