-- ===== src/AuthService/Registered.antt =====
-- Who registers can log in: internal/service/auth_service.go with internal/auth/password.go.
use Prim.Native.String.{len}
use ficct_boutique_backend_g.Base.{
  ℕ, ◌≡◌, ◌∙◌, refl, sym, ap, subst, String, Bool, true, false, not, ◌||◌, Option, none, some, List,
  [], ◌∷◌, if◌then◌else◌, str_eq, eq_iff, ◌==◌, find_where, any_where, insert_row,
  find_where-insert_row, All, arith, Bool-cases, inl, inr, ltb,
}
use ficct_boutique_backend_g.Models.{Timestamp, User, Role}
use ficct_boutique_backend_g.Store.{
  Db, Error, Tx, Env, ok, err, ◌>>=◌, ◌>>◌, fail_if, or_fail, pure,
}
use ficct_boutique_backend_g.Store.Laws.{fail_if-eq-ok, or_fail-eq-ok, ok-injective}
use ficct_boutique_backend_g.Password.{Argon, hash_password, verify_password, with_salt}
use ficct_boutique_backend_g.Password.RoundTrip.{IsArgon, verify-hash_password}
use ficct_boutique_backend_g.Text.Base64.{IsByte}
use ficct_boutique_backend_g.Tokens.{Jwt, TokenIssuer, issue_access}
use ficct_boutique_backend_g.UserRepo.{
  Cases, has_email, find_by_email, create, new_user, plain_email, put_users,
}
use ficct_boutique_backend_g.AuthService.{
  AuthResult, check_password, auth_result, known, admit, login, check_free, register,
}

module _ {ℓ} {A : Type ℓ} where
  find_where-not_any :
      (p : A → Bool) (xs : List A) → any_where p xs ≡ false → find_where p xs ≡ none
  find_where-not_any p [] h = refl
  find_where-not_any p (x ∷ xs) h = ground (arith, find_where-not_any p xs)

  any-last_of_three :
      (p q r : A → Bool) (xs : List A)
      → any_where (λ x. p x || (q x || r x)) xs ≡ false
      → any_where r xs ≡ false
  any-last_of_three p q r [] h = refl
  any-last_of_three p q r (x ∷ xs) h = ground (arith, any-last_of_three p q r xs)

some-injective : {a b : String} → some a ≡ some b → a ≡ b
some-injective h = cc

-- Only a password of at least eight bytes is hashed.
hash_password-long :
    (A : Argon) (salt : Option (List ℕ)) (password hash : String)
    → hash_password A salt password ≡ some hash
    → ltb (len password) 8 ≡ false
unfolding hash_password
hash_password-long A salt password hash h = elim (Bool-cases (ltb (len password) 8)) [
  | inr long ↦ long
  | inl short ↦ absurd (contra short)
]
  where
    contra : ltb (len password) 8 ≡ true → ⊥
    contra short =
        let none_is : none ≡ some hash =
          sym (ap (λ b. if b then none else with_salt A password salt) short) ∙ h in
        cc

module _ (C : Cases) (A : Argon) where
  check_free-eq-ok :
      {B : Type 0} (o : Option User) (k : Tx B) (db w : Db) (b : B)
      → elim (check_free C A (or_fail Error.not_found o db)) [ ok a d ↦ k d | err e d ↦ err e d ]
        ≡ ok b w
      → k db ≡ ok b w
  check_free-eq-ok none k db w b h = h
  check_free-eq-ok (some u) k db w b h = absurd (cc)

  create-eq-ok :
      (env : Env) (email hash name : String) (role : Role) (db w : Db) (u : User)
      → create C env email hash name role db ≡ ok u w
      → (u ≡ new_user env (plain_email C email) hash name role)
        × (w ≡ record db { users = insert_row u db.users })
        × (any_where (has_email C u.email) db.users ≡ false)
  unfolding create
  create-eq-ok env email hash name role db w u h =
      let row = new_user env (plain_email C email) hash name role in
      let (free, k) =
        fail_if-eq-ok
          (any_where (λ x. x.id == row.id || (str_eq x.email row.email || has_email C row.email x))
            db.users)
          Error.unique_violation (put_users (insert_row row db.users) >> pure row) db h in
      let (u_is, w_is) = ok-injective k in
      (
        sym u_is,
        sym w_is ∙ ap (λ r. record db { users = insert_row r db.users }) u_is,
        subst (λ (x : User). any_where (has_email C x.email) db.users ≡ false) u_is
            (any-last_of_three (λ x. x.id == row.id) (λ x. str_eq x.email row.email)
              (has_email C row.email) db.users free),
      )

  register-eq-ok :
      (salt : Option (List ℕ)) (env : Env) (email password name : String) (role : Role) (db w : Db)
      (u : User)
      → register C A salt env email password name role db ≡ ok u w
      → (hash : String) × (hash_password A salt password ≡ some hash)
        × (create C env email hash name role db ≡ ok u w)
  unfolding register find_by_email
  register-eq-ok salt env email password name role db w u h =
      or_fail-eq-ok Error.password_not_hashed (hash_password A salt password)
        (λ hash. create C env email hash name role) db
        (check_free-eq-ok (find_where (has_email C email) db.users)
          (or_fail Error.password_not_hashed (hash_password A salt password)
            >>= (λ hash. create C env email hash name role))
          db w u h)

  login-ok :
      (J : Jwt) (t : TokenIssuer) (env : Env) (address password token : String) (exp : Timestamp)
      (db : Db) (u : User)
      → find_where (has_email C address) db.users ≡ some u
      → u.is_active ≡ true
      → verify_password A password u.password_hash ≡ some true
      → issue_access J t env.now (env.uuid 0) u.id u.email u.role none ≡ some (token, exp)
      → login C A J t env address password db ≡ ok (auth_result u (token, exp)) db
  unfolding login admit find_by_email
  login-ok J t env address password token exp db u found active verified issued =
      let answer : String × Timestamp → Tx AuthResult = λ p. pure (auth_result u p) in
      let made = issue_access J t env.now (env.uuid 0) u.id u.email u.role none in
      let good = verify_password A password u.password_hash in
      ap
        (λ o. elim (known (or_fail Error.not_found o db)) [
          | ok a d ↦ admit C A J t env password a d
          | err e d ↦ err e d
        ])
        found
      ∙ (ap
            (λ b.
              (fail_if (not b) Error.inactive_user
                  >> (check_password good >> (or_fail Error.token_not_signed made >>= answer)))
                db)
            active
          ∙ (ap (λ o. (check_password o >> (or_fail Error.token_not_signed made >>= answer)) db)
                verified
              ∙ ap (λ o. (or_fail Error.token_not_signed o >>= answer) db) issued))

  -- The account that a registration answers is active, has the role that was asked for and the
  -- trimmed address in small letters, and its address was not taken, in any case of its letters. With
  -- the password, and the address in any case, a login then gives a token for it, if tokens can be
  -- signed.
  pub register-login :
      (laws : IsArgon A) (J : Jwt) (t : TokenIssuer) (salt : List ℕ) (env env' : Env)
      (email password name address token : String) (exp : Timestamp) (role : Role) (db w : Db)
      (u : User)
      → All IsByte salt
      → register C A (some salt) env email password name role db ≡ ok u w
      → C.sql_lower address ≡ C.sql_lower u.email
      → issue_access J t env'.now (env'.uuid 0) u.id u.email u.role none ≡ some (token, exp)
      → (u.email ≡ plain_email C email)
        × (u.role ≡ role)
        × (any_where (has_email C u.email) db.users ≡ false)
        × (login C A J t env' address password w ≡ ok (auth_result u (token, exp)) w)
  register-login laws J t salt env env' email password name address token exp role db w u hs h same
        issued =
      let (hash, hashed, made) = register-eq-ok (some salt) env email password name role db w u h in
      let (u_is, w_is, free) = create-eq-ok env email hash name role db w u made in
      let long = hash_password-long A (some salt) password hash hashed in
      let (encoded, _, _, hashed', _, _, _, accepted) =
        verify-hash_password A laws password password salt hs long in
      let encoded_is : encoded ≡ hash = some-injective (sym hashed' ∙ hashed) in
      let verified : verify_password A password u.password_hash ≡ some true =
        ap (verify_password A password) (ap (λ (x : User). x.password_hash) u_is ∙ sym encoded_is)
        ∙ accepted in
      (
        ap (λ (x : User). x.email) u_is,
        ap (λ (x : User). x.role) u_is,
        free,
        login-ok J t env' address password token exp w u
            (ap (λ (d : Db). find_where (has_email C address) d.users) w_is
              ∙ (ap (λ l. find_where (λ x. str_eq (C.sql_lower x.email) l) (insert_row u db.users))
                    same
                  ∙ find_where-insert_row (has_email C u.email) u db.users
                      (find_where-not_any (has_email C u.email) db.users free)
                      ((eq_iff (C.sql_lower u.email) (C.sql_lower u.email)).1 refl)))
            (ap (λ (x : User). x.is_active) u_is) verified issued,
      )
