-- ===== src/AuthService.antt =====
-- internal/service/auth_service.go: login and registration.
pub mod Login
pub mod Registered
use ficct_boutique_backend_g.Base.{
  ℕ, String, Bool, true, false, not, Option, none, some, List, if◌then◌else◌,
}
use ficct_boutique_backend_g.Models.{Timestamp, User, Role}
use ficct_boutique_backend_g.Store.{
  Db, Error, Tx, Env, Outcome, ok, err, pure, ◌>>=◌, ◌>>◌, fail_if, or_fail,
}
use ficct_boutique_backend_g.Password.{Argon, hash_password, verify_password}
use ficct_boutique_backend_g.Tokens.{Jwt, TokenIssuer, issue_access}
use ficct_boutique_backend_g.UserRepo.{Cases, find_by_email, create}

pub record AuthResult : Type 0 where
  pub user : User
  pub access_token : String
  pub expires_at : Timestamp

-- `errors.Is(err, repository.ErrNotFound)`
abbrev pub hide_not_found : Error → Error
hide_not_found Error.not_found = Error.invalid_credentials
hide_not_found e = e

abbrev pub check_password : Option Bool → Tx (Unit {0})
check_password none db = err Error.password_not_verified db
check_password (some good) db = if not good then err Error.invalid_credentials db else ok tt db

abbrev pub auth_result : User → String × Timestamp → AuthResult
auth_result user (token, exp) = record { user = user; access_token = token; expires_at = exp }

abbrev pub known : Outcome User → Outcome User
known (ok u w) = ok u w
known (err e w) = err (hide_not_found e) w

module _ (C : Cases) (A : Argon) where
  -- What follows the lookup. The claims of a login have no branch; the token's identifier is the
  -- first that the call draws.
  unfoldable pub admit : Jwt → TokenIssuer → Env → String → User → Tx AuthResult
  admit J t env password user = do
    fail_if (not user.is_active) Error.inactive_user
    check_password (verify_password A password user.password_hash)
    issued ←
        or_fail Error.token_not_signed
          (issue_access J t env.now (env.uuid 0) user.id user.email user.role none)
    pure (auth_result user issued)

  unfoldable pub login : Jwt → TokenIssuer → Env → String → String → Tx AuthResult
  unfolding admit
  login J t env email password = (λ db. known (find_by_email C email db)) >>= admit J t env password

  -- `existing != nil`, and any error but ErrNotFound.
  abbrev pub check_free : Outcome User → Outcome (Unit {0})
  check_free (ok u w) = err Error.email_exists w
  check_free (err Error.not_found w) = ok tt w
  check_free (err e w) = err e w

  unfoldable pub register : Option (List ℕ) → Env → String → String → String → Role → Tx User
  register salt env email password full_name role = do
    (λ db. check_free (find_by_email C email db))
    hash ← or_fail Error.password_not_hashed (hash_password A salt password)
    create C env email hash full_name role
