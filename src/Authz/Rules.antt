-- ===== src/Authz/Rules.antt =====
-- The checks of graph/authz.go against the list of roles that each lets through.
use ficct_boutique_backend_g.Base.{◌≡◌, refl, true, none, some, [], ◌∷◌, ◌↔◌, arith}
use ficct_boutique_backend_g.Models.{Role}
use ficct_boutique_backend_g.Authz.{
  Context, require_auth, require_admin, require_admin_or_staff, is_admin_or_staff, require_roles,
}

-- The checks of the resolvers are RequireRoles of the middleware for their roles, errors included:
-- requireAuth for all four roles, requireAdmin for admin, requireAdminOrStaff for admin and staff;
-- and isAdminOrStaff says yes exactly when requireAdminOrStaff lets the caller through.
pub require_roles_agree :
    (ctx : Context)
    → (require_auth ctx
        ≡ require_roles ctx (Role.admin ∷ Role.staff ∷ Role.customer ∷ Role.system ∷ []))
      × (require_admin ctx ≡ require_roles ctx (Role.admin ∷ []))
      × (require_admin_or_staff ctx ≡ require_roles ctx (Role.admin ∷ Role.staff ∷ []))
      × ((is_admin_or_staff ctx ≡ true) ↔ (require_admin_or_staff ctx ≡ none))
unfolding require_auth require_admin require_admin_or_staff is_admin_or_staff require_roles
require_roles_agree none = (refl, refl, refl, ground arith)
require_roles_agree (some c) = ground arith
