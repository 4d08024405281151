-- ===== src/Seed/Accounts.antt =====
-- What the seed of cmd/seed/main.go does to accounts whose address is written with capitals.
use ficct_boutique_backend_g.Base.{
  ℕ, ◌≡◌, ◌≢◌, ◌∙◌, refl, ap, subst, String, true, false, ◌||◌, Option, none, some, List, [], ◌∷◌,
  if◌then◌else◌, str_eq, eq_iff, find_where, any_where, update_where, update_where-none,
  find_where-update_where, All, Bool-cases, inl, inr,
}
use mathlib.Core.Option
use ficct_boutique_backend_g.Models.{User, Role}
use ficct_boutique_backend_g.Store.{Db, Error, Env, ok, err, pure, or_fail}
use ficct_boutique_backend_g.Text.{trim_space}
use ficct_boutique_backend_g.Text.Split.{split}
use ficct_boutique_backend_g.Password.{Argon, hash_password}
use ficct_boutique_backend_g.Tokens.{Jwt, TokenIssuer}
use ficct_boutique_backend_g.UserRepo.{Cases, has_email, find_by_email}
use ficct_boutique_backend_g.AuthService.{login, known, admit}
use ficct_boutique_backend_g.Seed.{
  rotated, rotate_or_create, with_hash, upsert_user, entries, is_listed, switched_off,
  deactivate_listed, deactivate_legacy_users,
}

module _ (C : Cases) where
  -- Every address of the table is in small letters, as `create` of the repository stores it.
  abbrev pub AreLower : List User → Type 0
  AreLower rows = All (λ u. C.to_lower u.email ≡ u.email) rows

  -- A text with capitals is no address of the table.
  not_stored :
      (email : String) (rows : List User)
      → AreLower rows
      → C.to_lower email ≢ email
      → any_where (λ u. str_eq u.email email) rows ≡ false
  not_stored email [] lower capital = refl
  not_stored email (u ∷ rows) lower capital = elim (Bool-cases (str_eq u.email email)) [
    | inr other ↦ rw other (not_stored email rows lower.1 capital)
    | inl same ↦
        let e = (eq_iff u.email email).0 same in
        absurd (capital (subst (λ s. C.to_lower s ≡ s) e lower.0))
  ]

  not_listed :
      (emails : List String) (rows : List User)
      → AreLower rows
      → All (λ e. C.to_lower e ≢ e) emails
      → any_where (is_listed emails) rows ≡ false
  not_listed emails [] lower capitals = refl
  not_listed emails (u ∷ rows) lower capitals =
      rw (one emails capitals) (not_listed emails rows lower.1 capitals)
    where
      one :
          (es : List String)
          → All (λ e. C.to_lower e ≢ e) es
          → any_where (str_eq u.email) es ≡ false
      one [] h = refl
      one (e ∷ es) h = elim (Bool-cases (str_eq u.email e)) [
        | inr other ↦ rw other (one es h.1)
        | inl same ↦
            let p = (eq_iff u.email e).0 same in
            absurd (h.0 (subst (λ s. C.to_lower s ≡ s) p lower.0))
      ]

  deactivate_none :
      (env : Env) (emails : List String) (db : Db)
      → any_where (is_listed emails) db.users ≡ false
      → deactivate_listed env emails db ≡ db
  deactivate_none env [] db h = refl
  deactivate_none env (e ∷ emails) db h =
      ap (λ rows. record db { users = rows })
        (update_where-none (is_listed (e ∷ emails)) (switched_off env) db.users h)

  -- Where the table holds addresses in small letters, as the repository stores them, an address that
  -- the environment gives with capitals is found, since the lookup lowers both sides, but is not
  -- updated, since the UPDATE compares it as it stands: the account keeps its old password, although
  -- the call answers it. And a list of legacy accounts in which every address has capitals switches
  -- none of them off.
  pub upsert_user-capitals :
      (A : Argon) (getenv : String → String) (salt : Option (List ℕ)) (env : Env)
      (email_var pass_var name csv hash : String) (role : Role) (db : Db) (u : User)
      → AreLower db.users
      → C.to_lower (trim_space (getenv email_var)) ≢ trim_space (getenv email_var)
      → find_where (has_email C (trim_space (getenv email_var))) db.users ≡ some u
      → str_eq (trim_space (getenv email_var)) "" ≡ false
      → str_eq (getenv pass_var) "" ≡ false
      → hash_password A salt (getenv pass_var) ≡ some hash
      → All (λ e. C.to_lower e ≢ e) (entries (split 44 csv))
      → (upsert_user C A getenv salt env email_var pass_var name role db ≡ ok (some u) db)
        × (deactivate_legacy_users env csv db ≡ ok tt db)
  unfolding upsert_user deactivate_legacy_users find_by_email
  upsert_user-capitals A getenv salt env email_var pass_var name csv hash role db u lower capital
        found email password hashed capitals =
      let e = trim_space (getenv email_var) in
      (
        ap
              (λ b.
                (if b || str_eq (getenv pass_var) ""
                    then pure none
                    else with_hash C A env e name role (hash_password A salt (getenv pass_var)))
                  db)
              email
            ∙ (ap
                  (λ b.
                    (if b
                        then pure none
                        else with_hash C A env e name role (hash_password A salt (getenv pass_var)))
                      db)
                  password
                ∙ (ap (λ o. with_hash C A env e name role o db) hashed
                    ∙ (ap
                          (λ o.
                            rotate_or_create C A env e hash name role
                              (or_fail Error.not_found o db))
                          found
                        ∙ ap (λ rows. ok (some u) (record db { users = rows }))
                            (update_where-none (λ x. str_eq x.email e) (rotated env hash) db.users
                              (not_stored e db.users lower capital))))),
        ap (λ d. ok tt d)
            (deactivate_none env (entries (split 44 csv)) db
              (not_listed (entries (split 44 csv)) db.users lower capitals)),
      )

  listed-not_empty :
      (env : Env) (emails : List String) (db : Db) (u : User)
      → is_listed emails u ≡ true
      → deactivate_listed env emails db
        ≡ record db { users = update_where (is_listed emails) (switched_off env) db.users }
  listed-not_empty env [] db u h = absurd (cc)
  listed-not_empty env (e ∷ emails) db u h = refl

  -- An account whose address stands in the list, exactly as the table has it, cannot log in after
  -- the deactivation, whatever password is sent and in whatever case the address is written.
  pub deactivate_legacy_users-login :
      (A : Argon) (J : Jwt) (t : TokenIssuer) (env env' : Env) (csv address password : String)
      (db : Db) (u : User)
      → find_where (has_email C address) db.users ≡ some u
      → is_listed (entries (split 44 csv)) u ≡ true
      → (w : Db) × (deactivate_legacy_users env csv db ≡ ok tt w)
        × (login C A J t env' address password w ≡ err Error.inactive_user w)
  unfolding deactivate_legacy_users login admit find_by_email
  deactivate_legacy_users-login A J t env env' csv address password db u found listed =
      let emails = entries (split 44 csv) in
      let w = record db { users = update_where (is_listed emails) (switched_off env) db.users } in
      let off : find_where (has_email C address) w.users ≡ some (switched_off env u) =
        find_where-update_where (has_email C address) (is_listed emails) (switched_off env) db.users
          (λ x. refl)
        ∙ (ap (Option.map (λ x. if is_listed emails x then switched_off env x else x)) found
            ∙ ap (λ b. some (if b then switched_off env u else u)) listed) in
      (
        w,
        ap (λ d. ok tt d) (listed-not_empty env emails db u listed),
        ap
            (λ o. elim (known (or_fail Error.not_found o w)) [
              | ok a d ↦ admit C A J t env' password a d
              | err e d ↦ err e d
            ])
            off,
      )
