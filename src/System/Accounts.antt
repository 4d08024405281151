-- ===== src/System/Accounts.antt =====
-- Login of internal/service/auth_service.go, seen from the table `inventory`.
use ficct_boutique_backend_g.Base.{String, Option, none, some, List, Bool, not, true, false}
use ficct_boutique_backend_g.Models.{Timestamp, Inventory, User}
use ficct_boutique_backend_g.Store.{
  Env, Tx, Error, Outcome, ok, err, after, pure, or_fail, ◌>>=◌, ◌>>◌,
}
use ficct_boutique_backend_g.Store.Keeps.{Keeps, >>=-Keeps, fail_if-Keeps, or_fail-Keeps, row-Keeps}
use ficct_boutique_backend_g.Password.{Argon, verify_password}
use ficct_boutique_backend_g.Tokens.{Jwt, TokenIssuer, issue_access}
use ficct_boutique_backend_g.UserRepo.{Cases, find_by_email}
use ficct_boutique_backend_g.AuthService
use ficct_boutique_backend_g.AuthService.{AuthResult, auth_result, known, check_password, admit}

module _ (P : List Inventory → Type 0) where
  find_user-Keeps : (C : Cases) (email : String) → Keeps P (find_by_email C email)
  unfolding find_by_email
  find_user-Keeps C email db p = row-Keeps P _ _ db p

  -- What follows the lookup writes nothing.
  admit-Keeps :
      (C : Cases) (A : Argon) (tokens : Jwt) (t : TokenIssuer) (env : Env) (password : String)
      (user : User)
      → Keeps P (admit C A tokens t env password user)
  unfolding admit
  admit-Keeps C A tokens t env password user =
      let issued = issue_access tokens t env.now (env.uuid 0) user.id user.email user.role none in
      let finish : Option (String × Timestamp) → Tx AuthResult =
        λ o. or_fail Error.token_not_signed o >>= λ x. pure (auth_result user x) in
      let checked =
        check_password (verify_password A password user.password_hash) >> finish issued in
      fail_if-Keeps P (not user.is_active) Error.inactive_user checked (
        >>=-Keeps P (check_password (verify_password A password user.password_hash)) _
          (check_password-Keeps (verify_password A password user.password_hash))
          λ u. or_fail-Keeps P Error.token_not_signed issued _ (λ x d q. q))
    where
      check_password-Keeps : (o : Option Bool) → Keeps P (check_password o)
      check_password-Keeps none db p = p
      check_password-Keeps (some true) db p = p
      check_password-Keeps (some false) db p = p

  pub login-Keeps :
      (C : Cases) (A : Argon) (tokens : Jwt) (t : TokenIssuer) (env : Env) (email password : String)
      → Keeps P (AuthService.login C A tokens t env email password)
  unfolding AuthService.login
  login-Keeps C A tokens t env email password =
      >>=-Keeps P (λ db. known (find_by_email C email db)) (admit C A tokens t env password)
        (λ db p. go (find_by_email C email db) (find_user-Keeps C email db p))
        (admit-Keeps C A tokens t env password)
    where
      go : (o : Outcome User) → P (after o).inventory → P (after (known o)).inventory
      go (ok u w) q = q
      go (err e w) q = q
