-- ===== src/Seed.antt =====
-- cmd/seed/main.go: the accounts that are made or rotated from environment variables, and those that
-- are switched off.
pub mod Accounts
use Prim.Native.String
use ficct_boutique_backend_g.Base.{
  ℕ, String, Bool, true, false, not, ◌||◌, ◌&&◌, Option, none, some, List, [], ◌∷◌, if◌then◌else◌,
  str_eq, any_where, update_where,
}
use ficct_boutique_backend_g.Models.{User, Role}
use ficct_boutique_backend_g.Store.{Db, Error, Tx, Env, Outcome, ok, err, pure, ◌>>=◌, ◌>>◌}
use ficct_boutique_backend_g.Text.{trim_space}
use ficct_boutique_backend_g.Text.Split.{split}
use ficct_boutique_backend_g.Password.{Argon, hash_password}
use ficct_boutique_backend_g.UserRepo.{Cases, find_by_email, create, put_users}

-- UPDATE users SET password_hash=$2, is_active=TRUE, updated_at=NOW() WHERE email=$1
abbrev pub rotated : Env → String → User → User
rotated env hash u = record u { password_hash = hash; is_active = true; updated_at = env.now }

abbrev pub rotate : Env → String → String → Db → Db
rotate env email hash db = record db {
  users = update_where (λ u. str_eq u.email email) (rotated env hash) db.users;
}

-- A creation that fails is logged, and answers nil.
abbrev pub created : Outcome User → Outcome (Option User)
created (ok u w) = ok (some u) w
created (err e w) = ok none w

module _ (C : Cases) (A : Argon) where
  -- `err == nil && existing != nil`
  abbrev pub rotate_or_create :
      Env → String → String → String → Role → Outcome User → Outcome (Option User)
  rotate_or_create env email hash name role (ok u w) = ok (some u) (rotate env email hash w)
  rotate_or_create env email hash name role (err e w) =
      created (create C env email hash name role w)

  -- log.Fatal ends the program.
  abbrev pub with_hash : Env → String → String → Role → Option String → Tx (Option User)
  with_hash env email name role none db = err Error.password_not_hashed db
  with_hash env email name role (some hash) db =
      rotate_or_create env email hash name role (find_by_email C email db)

  unfoldable pub upsert_user :
      (String → String) → Option (List ℕ) → Env → String → String → String → Role → Tx (Option User)
  upsert_user getenv salt env email_var pass_var name role =
      let email = trim_space (getenv email_var) in
      let password = getenv pass_var in
      if str_eq email "" || str_eq password ""
      then pure none
      else with_hash env email name role (hash_password A salt password)

-- The entries of a list with commas, trimmed, without the empty ones.
abbrev pub onto_entries : String → List String → List String
onto_entries t rest = if str_eq t "" then rest else t ∷ rest

abbrev pub entries : List String → List String
entries [] = []
entries (p ∷ ps) = onto_entries (trim_space p) (entries ps)

abbrev pub is_listed : List String → User → Bool
is_listed emails u = any_where (str_eq u.email) emails

abbrev pub switched_off : Env → User → User
switched_off env u = record u { is_active = false; updated_at = env.now }

abbrev pub deactivate_listed : Env → List String → Db → Db
deactivate_listed env [] db = db
deactivate_listed env (e ∷ emails) db = record db {
  users = update_where (is_listed (e ∷ emails)) (switched_off env) db.users;
}

unfoldable pub deactivate_legacy_users : Env → String → Tx (Unit {0})
deactivate_legacy_users env csv db = ok tt (deactivate_listed env (entries (split 44 csv)) db)
