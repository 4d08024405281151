-- ===== src/AuthService/Login.antt =====
-- Who can log in, and that who registers can: internal/service/auth_service.go.
use ficct_boutique_backend_g.Base.{
  ◌≡◌, ◌∙◌, refl, sym, ap, subst, not-eq-false, String, Bool, true, false, not, Option, none, some,
  eq_iff, find_where, find_where-passes,
}
use ficct_boutique_backend_g.Models.{User}
use ficct_boutique_backend_g.Store.{Db, Error, Tx, Env, ok, ◌>>=◌, ◌>>◌, or_fail, pure}
use ficct_boutique_backend_g.Store.Laws.{>>=-eq-ok, fail_if-eq-ok, or_fail-eq-ok, ok-injective}
use ficct_boutique_backend_g.Password.{Argon, verify_password}
use ficct_boutique_backend_g.Tokens.{Jwt, TokenIssuer, issue_access}
use ficct_boutique_backend_g.UserRepo.{Cases, has_email, find_by_email}
use ficct_boutique_backend_g.AuthService.{
  AuthResult, check_password, auth_result, known, admit, login,
}

module _ (C : Cases) (A : Argon) where
  check_password-eq-ok :
      {B : Type 0} (o : Option Bool) (k : Tx B) (db w : Db) (b : B)
      → (check_password o >> k) db ≡ ok b w
      → (o ≡ some true) × (k db ≡ ok b w)
  check_password-eq-ok none k db w b h = absurd (cc)
  check_password-eq-ok (some false) k db w b h = absurd (cc)
  check_password-eq-ok (some true) k db w b h = (refl, h)

  -- What a login that went well has seen.
  pub record IsLogin (J : Jwt) (t : TokenIssuer) (env : Env) (email password : String) (db : Db)
      (r : AuthResult) : Type 0 where
    pub stored : find_where (has_email C email) db.users ≡ some r.user
    pub addressed : C.sql_lower r.user.email ≡ C.sql_lower email
    pub active : r.user.is_active ≡ true
    pub verified : verify_password A password r.user.password_hash ≡ some true
    pub issued :
        issue_access J t env.now (env.uuid 0) r.user.id r.user.email r.user.role none
        ≡ some (r.access_token, r.expires_at)

  known-eq-ok :
      (o : Option User) (db v : Db) (u : User)
      → known (or_fail Error.not_found o db) ≡ ok u v
      → (o ≡ some u) × (v ≡ db)
  known-eq-ok none db v u h = absurd (cc)
  known-eq-ok (some x) db v u h = (cc, cc)

  admit-eq-ok :
      (J : Jwt) (t : TokenIssuer) (env : Env) (password : String) (u : User) (db w : Db)
      (r : AuthResult)
      → admit C A J t env password u db ≡ ok r w
      → (u.is_active ≡ true)
        × (verify_password A password u.password_hash ≡ some true)
        × (r.user ≡ u)
        × (issue_access J t env.now (env.uuid 0) u.id u.email u.role none
            ≡ some (r.access_token, r.expires_at))
        × (w ≡ db)
  unfolding admit
  admit-eq-ok J t env password u db w r h =
      let good = verify_password A password u.password_hash in
      let made = issue_access J t env.now (env.uuid 0) u.id u.email u.role none in
      let issue : Tx AuthResult =
        or_fail Error.token_not_signed made >>= (λ issued. pure (auth_result u issued)) in
      let (active, k2) =
        fail_if-eq-ok (not u.is_active) Error.inactive_user (check_password good >> issue) db h in
      let (verified, k3) = check_password-eq-ok good issue db w r k2 in
      let ((token, exp), made_is, k4) =
        or_fail-eq-ok Error.token_not_signed made (λ issued. pure (auth_result u issued)) db k3 in
      let (r_is, w_is) = ok-injective k4 in
      (
        not-eq-false u.is_active active,
        verified,
        ap (λ (x : AuthResult). x.user) (sym r_is),
        made_is ∙ ap (λ (x : AuthResult). some (x.access_token, x.expires_at)) r_is,
        sym w_is,
      )

  -- A login gives a token to nobody but the account that is stored under the address, in any case of
  -- its letters, that is active and whose hash verifies the password. The token is made for the
  -- identifier, the address and the role of that account, and nothing is written.
  pub login-IsLogin :
      (J : Jwt) (t : TokenIssuer) (env : Env) (email password : String) (db w : Db) (r : AuthResult)
      → login C A J t env email password db ≡ ok r w
      → IsLogin J t env email password db r × (w ≡ db)
  unfolding login find_by_email
  login-IsLogin J t env email password db w r h =
      let (u, v, h1, k1) =
        >>=-eq-ok (λ d. known (find_by_email C email d)) (admit C A J t env password) db h in
      let (stored, same) = known-eq-ok (find_where (has_email C email) db.users) db v u h1 in
      let (active, verified, user_is, issued, same') = admit-eq-ok J t env password u v w r k1 in
      let back = sym user_is in
      (
        record {
          stored = stored ∙ ap some back;
          addressed = (eq_iff (C.sql_lower r.user.email) (C.sql_lower email)).0 (
              subst (λ x. has_email C email x ≡ true) back
                (find_where-passes (has_email C email) db.users u stored).0);
          active = subst (λ (x : User). x.is_active ≡ true) back active;
          verified =
              subst (λ (x : User). verify_password A password x.password_hash ≡ some true) back
                verified;
          issued =
              subst
                (λ (x : User).
                  issue_access J t env.now (env.uuid 0) x.id x.email x.role none
                  ≡ some (r.access_token, r.expires_at))
                back issued;
        },
        same' ∙ same,
      )
