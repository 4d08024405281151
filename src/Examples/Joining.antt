-- ===== src/Examples/Joining.antt =====
-- Ana joins the shop of `Examples`, and logs in.
use ficct_boutique_backend_g.Base.{
  ◌≡◌, ◌≢◌, refl, String, true, false, ◌&&◌, none, some, [], ◌∷◌, if◌then◌else◌, str_eq, eq_iff,
  any_where, ltb, leb,
}
use ficct_boutique_backend_g.Base.Int.{pos, ◌+ℤ◌}
use ficct_boutique_backend_g.Base.Result.{good}
use ficct_boutique_backend_g.Models.{User, Role}
use ficct_boutique_backend_g.Store.{Db, ok}
use ficct_boutique_backend_g.Text.{trim_space, trim_left, trim_right}
use ficct_boutique_backend_g.Text.Split.{split}
use ficct_boutique_backend_g.Text.Number.{parse_int64}
use ficct_boutique_backend_g.Password.{hash_password, phc}
use ficct_boutique_backend_g.Authz.{Claims}
use ficct_boutique_backend_g.Tokens.{issue_access, expiry}
use ficct_boutique_backend_g.UserRepo.{has_email, find_by_email, create, plain_email}
use ficct_boutique_backend_g.AuthService.{auth_result, login, register}
use ficct_boutique_backend_g.AuthService.Login.{IsLogin, login-IsLogin}
use ficct_boutique_backend_g.AuthService.Registered.{register-login}
use ficct_boutique_backend_g.Middleware.{optional_auth}
use ficct_boutique_backend_g.Middleware.Bearer.{bearer, login-Context}
use ficct_boutique_backend_g.Config.{Config, get_env_any, split_csv, load_numbers, load}
use ficct_boutique_backend_g.Server.{issuer_of, verifier_of}
use ficct_boutique_backend_g.Server.Audience.{audiences, login-audience}
use ficct_boutique_backend_g.Seed.{upsert_user, deactivate_legacy_users}
use ficct_boutique_backend_g.Seed.Accounts.{upsert_user-capitals}
use ficct_boutique_backend_g.Queries.{me}
use ficct_boutique_backend_g.Examples.{shop, env_at, maria}
use ficct_boutique_backend_g.Examples.Accounts.{
  cases, argon, argon-IsArgon, salt, salt-All, key_of, read_uuid, jwt, jwt-IsJwt,
}

-- The environment names the database and one audience.
abbrev getenv : String → String
getenv name =
    if str_eq name "DATABASE_URL"
    then "postgres://localhost/boutique"
    else if str_eq name "JWT_AUDIENCE"
    then " ficct-angular, "
    else ""

abbrev settings : Config
settings = record {
  app_env = "development";
  app_port = "8080";
  log_level = "info";
  database_url = "postgres://localhost/boutique";
  migrations_dir = "migrations";
  jwt_private_key_path = "/app/.tools/keys/jwt_private_dev.pem";
  jwt_public_key_path = "/app/.tools/keys/jwt_public_dev.pem";
  jwt_private_key_pem = "";
  jwt_public_key_pem = "";
  jwt_issuer = "ficct-go";
  jwt_audience = "ficct-angular" ∷ [];
  jwt_key_id = "dev-1";
  jwt_access_ttl = pos 3600000000000;
  jwt_refresh_ttl = pos 604800000000000;
  cors_allowed_origins = "http://localhost:4200" ∷ [];
  webhook_invoice_url = "";
  webhook_hmac_secret = "";
  webhook_dispatch_interval = pos 5000000000;
  webhook_max_retries = pos 5;
  rate_limit_rps = pos 20;
  rate_limit_burst = pos 40;
  expo_push_api_url = "https://exp.host/--/api/v2/push/send";
  expo_push_access_token = "";
}

loads : load getenv ≡ good settings
unfolding load load_numbers get_env_any split_csv trim_space trim_left trim_right split parse_int64
loads = refl

abbrev ana : User
ana = record {
  id = 500;
  email = "ana@ficct.bo";
  password_hash = phc 19 salt (key_of "secreto-1");
  full_name = "Ana";
  role = Role.customer;
  is_active = true;
  created_at = 5;
  updated_at = 5;
}

abbrev with_ana : Db
with_ana = record shop { users = maria ∷ ana ∷ [] }

registers :
    register cases argon (some salt) (env_at 5) " Ana@Ficct.bo" "secreto-1" "Ana" Role.customer shop
    ≡ ok ana with_ana
unfolding register find_by_email create hash_password trim_space trim_left trim_right
registers = refl

issues :
    issue_access jwt (issuer_of settings) 6 600 500 "ana@ficct.bo" Role.customer none
    ≡ some ("h.p.s", 3600000000006)
unfolding issue_access ◌+ℤ◌
issues = refl

register-login_example :
    (ana.email ≡ plain_email cases " Ana@Ficct.bo")
    × (ana.role ≡ Role.customer)
    × (any_where (has_email cases ana.email) shop.users ≡ false)
    × (login cases argon jwt (issuer_of settings) (env_at 6) "Ana@Ficct.bo" "secreto-1" with_ana
        ≡ ok (auth_result ana ("h.p.s", 3600000000006)) with_ana)
register-login_example =
    register-login cases argon argon-IsArgon jwt (issuer_of settings) salt (env_at 5) (env_at 6)
      " Ana@Ficct.bo" "secreto-1" "Ana" "Ana@Ficct.bo" "h.p.s" 3600000000006 Role.customer shop
      with_ana ana salt-All registers refl issues

logs_in :
    login cases argon jwt (issuer_of settings) (env_at 6) "Ana@Ficct.bo" "secreto-1" with_ana
    ≡ ok (auth_result ana ("h.p.s", 3600000000006)) with_ana
logs_in = register-login_example.3

login-IsLogin_example :
    IsLogin cases argon jwt
      (issuer_of settings)
      (env_at 6)
      "Ana@Ficct.bo"
      "secreto-1"
      with_ana
      (auth_result ana ("h.p.s", 3600000000006))
    × (with_ana ≡ with_ana)
login-IsLogin_example =
    login-IsLogin cases argon jwt (issuer_of settings) (env_at 6) "Ana@Ficct.bo" "secreto-1"
      with_ana with_ana (auth_result ana ("h.p.s", 3600000000006)) logs_in

login-Context_example :
    (c : Claims) × (c.role ≡ ana.role)
    × (read_uuid c.subject ≡ some ana.id)
    × (optional_auth jwt (verifier_of settings) 7 (bearer "h.p.s") ≡ (
        if ltb 7 (jwt.numeric_date (expiry (issuer_of settings) 6)) && leb (jwt.numeric_date 6) 7
        then some c
        else none))
    × (me read_uuid (some c) with_ana ≡ ok (some ana) with_ana)
login-Context_example =
    login-Context jwt read_uuid jwt-IsJwt cases argon (issuer_of settings) (verifier_of settings)
      (env_at 6) "Ana@Ficct.bo" "secreto-1" 7 with_ana with_ana with_ana
      (auth_result ana ("h.p.s", 3600000000006)) ana logs_in refl refl refl

login-audience_example :
    (c : Claims) × (c.role ≡ ana.role)
    × (read_uuid c.subject ≡ some ana.id)
    × (optional_auth jwt (verifier_of settings) 7 (bearer "h.p.s") ≡ (
        if any_where (str_eq "ficct-angular") (audiences getenv)
          && (ltb 7 (jwt.numeric_date (expiry (issuer_of settings) 6))
              && leb (jwt.numeric_date 6) 7)
        then some c
        else none))
login-audience_example =
    login-audience jwt read_uuid jwt-IsJwt cases argon getenv settings (env_at 6) "Ana@Ficct.bo"
      "secreto-1" 7 with_ana with_ana (auth_result ana ("h.p.s", 3600000000006)) loads logs_in

-- The seed is asked for an account whose address is written with capitals.
abbrev seed_env : String → String
seed_env name = if str_eq name "SEED_CUSTOMER_EMAIL" then "Ana@Ficct.bo" else "otro-secreto"

capitals : cases.to_lower "Ana@Ficct.bo" ≢ "Ana@Ficct.bo"
capitals h = absurd (impossible ((eq_iff "ana@ficct.bo" "Ana@Ficct.bo").1 h))
  where
    impossible : false ≡ true → ⊥
    impossible h = cc

upsert_user-capitals_example :
    (upsert_user cases argon seed_env
        (some salt)
        (env_at 8)
        "SEED_CUSTOMER_EMAIL"
        "SEED_CUSTOMER_PASSWORD"
        "Ana"
        Role.customer
        with_ana
      ≡ ok (some ana) with_ana)
    × (deactivate_legacy_users (env_at 8) "Ana@Ficct.bo" with_ana ≡ ok tt with_ana)
unfolding hash_password trim_space trim_left trim_right split
upsert_user-capitals_example =
    upsert_user-capitals cases argon seed_env (some salt) (env_at 8) "SEED_CUSTOMER_EMAIL"
      "SEED_CUSTOMER_PASSWORD" "Ana" "Ana@Ficct.bo" (phc 19 salt (key_of "otro-secreto"))
      Role.customer with_ana ana (refl, (refl, tt)) capitals refl refl refl refl (capitals, tt)
