-- ===== src/Authz.antt =====
-- Who may call what: graph/authz.go and internal/middleware/rbac.go. The claims of the request are
-- what internal/middleware/auth.go put in its context.
pub mod Rules
use ficct_boutique_backend_g.Base.{
  String, Bool, true, false, ◌||◌, ◌&&◌, not, Option, none, some, List, [], ◌∷◌, if◌then◌else◌,
}
use ficct_boutique_backend_g.Models.{Uuid, Role, role_eq}
use ficct_boutique_backend_g.Store.{Error, Tx, ok, err}

-- The claims of a verified token; of the registered ones the program reads the subject.
pub record Claims : Type 0 where
  pub role : Role
  pub branch_id : Option Uuid
  pub email : String
  pub subject : String

-- ClaimsFromContext: `none` where the request carries no valid token.
abbrev pub Context : Type 0
Context = Option Claims

-- A check returns nil or an error.
abbrev pub check : Option Error → Tx (Unit {0})
check none db = ok tt db
check (some e) db = err e db

unfoldable pub require_auth : Context → Option Error
require_auth none = some Error.unauthenticated
require_auth (some c) = none

unfoldable pub require_admin : Context → Option Error
require_admin none = some Error.unauthenticated
require_admin (some c) = if not (role_eq c.role Role.admin) then some Error.forbidden else none

unfoldable pub require_admin_or_staff : Context → Option Error
require_admin_or_staff none = some Error.unauthenticated
require_admin_or_staff (some c) =
    if not (role_eq c.role Role.admin) && not (role_eq c.role Role.staff)
    then some Error.forbidden
    else none

unfoldable pub is_admin_or_staff : Context → Bool
is_admin_or_staff none = false
is_admin_or_staff (some c) = role_eq c.role Role.admin || role_eq c.role Role.staff

-- The loop of RequireRoles.
abbrev pub any_role : Role → List Role → Option Error
any_role r [] = some Error.forbidden
any_role r (x ∷ xs) = let rest = any_role r xs in if role_eq r x then none else rest

unfoldable pub require_roles : Context → List Role → Option Error
require_roles none roles = some Error.unauthenticated
require_roles (some c) roles = any_role c.role roles

-- uuid.Parse is a library's: an argument.
abbrev pub parse_or_fail : (String → Option Uuid) → String → Tx Uuid
parse_or_fail parse s db = elim (parse s) [ some u ↦ ok u db | none ↦ err Error.invalid_uuid db ]

unfoldable pub subject_uuid : (String → Option Uuid) → Context → Option Uuid
subject_uuid parse none = none
subject_uuid parse (some c) = parse c.subject
