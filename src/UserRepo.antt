-- ===== src/UserRepo.antt =====
-- internal/repository/users.go: the accounts.
use ficct_boutique_backend_g.Base.{
  String, Bool, true, List, ◌==◌, str_eq, find_where, any_where, update_where, insert_row, ◌||◌,
}
use ficct_boutique_backend_g.Models.{Uuid, Timestamp, User, Role}
use ficct_boutique_backend_g.Store.{Error, Tx, Env, ok, pure, ◌>>=◌, ◌>>◌, gets, fail_if, or_fail}
use ficct_boutique_backend_g.Text.{trim_space}

-- Two functions that lower a text by the tables of Unicode: strings.ToLower, and LOWER under the
-- collation of the database.
pub record Cases : Type 0 where
  pub to_lower : String → String
  pub sql_lower : String → String

abbrev pub put_users : List User → Tx (Unit {0})
put_users rows db = ok tt (record db { users = rows })

-- LOWER(email) = LOWER($1), on which the table has a unique index.
abbrev pub has_email : Cases → String → User → Bool
has_email C email u = str_eq (C.sql_lower u.email) (C.sql_lower email)

unfoldable pub find_by_email : Cases → String → Tx User
find_by_email C email db = or_fail Error.not_found (find_where (has_email C email) db.users) db

unfoldable pub find_by_id : Uuid → Tx User
find_by_id id db = or_fail Error.not_found (find_where (λ u. u.id == id) db.users) db

abbrev pub new_user : Env → String → String → String → Role → User
new_user env email hash full_name role = record {
  id = env.uuid 0;
  email = email;
  password_hash = hash;
  full_name = full_name;
  role = role;
  is_active = true;
  created_at = env.now;
  updated_at = env.now;
}

-- strings.ToLower(strings.TrimSpace(email))
abbrev pub plain_email : Cases → String → String
plain_email C email = C.to_lower (trim_space email)

-- The row must keep the identifiers, the addresses and the lowered addresses unique.
unfoldable pub create : Cases → Env → String → String → String → Role → Tx User
create C env email hash full_name role = do
  let u = new_user env (plain_email C email) hash full_name role
  rows ← gets (λ db. db.users)
  fail_if (any_where (λ x. x.id == u.id || (str_eq x.email u.email || has_email C u.email x)) rows)
      Error.unique_violation
  put_users (insert_row u rows)
  pure u

unfoldable pub update_last_seen : Uuid → Timestamp → Tx (Unit {0})
update_last_seen id now = do
  rows ← gets (λ db. db.users)
  put_users (update_where (λ u. u.id == id) (λ u. record u { updated_at = now }) rows)
