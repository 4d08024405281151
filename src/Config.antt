-- ===== src/Config.antt =====
-- internal/config/config.go: the settings, from the variables of the environment.
use ficct_boutique_backend_g.Base.{
  ℕ, ◌+◌, ◌-◌, ◌*◌, ◌^◌, ◌%◌, String, Option, none, some, List, [], ◌∷◌, str_eq, ltb, if◌then◌else◌,
}
use ficct_boutique_backend_g.Base.Int.{ℤ, pos, negsuc}
use ficct_boutique_backend_g.Base.Result.{Result, good, bad, ◌>>=◌}
use ficct_boutique_backend_g.Text.{trim_space}
use ficct_boutique_backend_g.Text.Split.{split}
use ficct_boutique_backend_g.Text.Number.{atoi}

-- The times are in nanoseconds, as a time.Duration.
pub record Config : Type 0 where
  pub app_env : String
  pub app_port : String
  pub log_level : String
  pub database_url : String
  pub migrations_dir : String
  pub jwt_private_key_path : String
  pub jwt_public_key_path : String
  pub jwt_private_key_pem : String
  pub jwt_public_key_pem : String
  pub jwt_issuer : String
  pub jwt_audience : List String
  pub jwt_key_id : String
  pub jwt_access_ttl : ℤ
  pub jwt_refresh_ttl : ℤ
  pub cors_allowed_origins : List String
  pub webhook_invoice_url : String
  pub webhook_hmac_secret : String
  pub webhook_dispatch_interval : ℤ
  pub webhook_max_retries : ℤ
  pub rate_limit_rps : ℤ
  pub rate_limit_burst : ℤ
  pub expo_push_api_url : String
  pub expo_push_access_token : String

-- The variable that is not a number, or the database's address that is not given.
pub data ConfigError : Type 0 where
  invalid : String → ConfigError
  database_url_required : ConfigError

-- The product of an int64 with a positive number, in 64 bits.
abbrev pub int64_of_bits : ℕ → ℤ
int64_of_bits n = if ltb n (2 ^ 63) then pos n else negsuc (2 ^ 64 - 1 - n)

abbrev pub times_int64 : ℤ → ℕ → ℤ
times_int64 (pos n) k = int64_of_bits ((n * k) % 2 ^ 64)
times_int64 (negsuc n) k = int64_of_bits ((2 ^ 64 - ((n + 1) * k) % 2 ^ 64) % 2 ^ 64)

abbrev pub second : ℕ
second = 1000000000

abbrev pub minute : ℕ
minute = 60 * second

abbrev pub hour : ℕ
hour = 60 * minute

-- The environment after the file .env; a variable that is not set is empty.
module _ (getenv : String → String) where
  unfoldable pub get_env_any : List String → String → String
  get_env_any [] fallback = fallback
  get_env_any (key ∷ keys) fallback =
      let rest = get_env_any keys fallback in
      let v = trim_space (getenv key) in if str_eq v "" then rest else v

abbrev pub onto_filled : String → List String → List String
onto_filled p rest = if str_eq p "" then rest else p ∷ rest

abbrev pub filled : List String → List String
filled [] = []
filled (p ∷ parts) = onto_filled (trim_space p) (filled parts)

unfoldable pub split_csv : String → List String
split_csv s = filled (split 44 s)

-- strconv.Atoi of a variable with an error of its own.
abbrev pub number_or_invalid : String → Option ℤ → Result ConfigError ℤ
number_or_invalid name none = bad (invalid name)
number_or_invalid name (some n) = good n

abbrev pub required : String → Result ConfigError String
required url = if str_eq url "" then bad database_url_required else good url

-- The six numbers of the settings.
pub record Numbers : Type 0 where
  pub access_ttl : ℤ
  pub refresh_ttl : ℤ
  pub dispatch_interval : ℤ
  pub max_retries : ℤ
  pub rps : ℤ
  pub burst : ℤ

module _ (getenv : String → String) where
  abbrev pub number : String → String → String → Result ConfigError ℤ
  number name go_name fallback =
      number_or_invalid name (atoi (get_env_any getenv (name ∷ go_name ∷ []) fallback))

  unfoldable pub load_numbers : Result ConfigError Numbers
  load_numbers = do
    access_ttl ← number "JWT_ACCESS_TTL_MINUTES" "GO_JWT_ACCESS_TTL_MINUTES" "60"
    refresh_ttl ← number "JWT_REFRESH_TTL_DAYS" "GO_JWT_REFRESH_TTL_DAYS" "7"
    interval ← number "WEBHOOK_DISPATCH_INTERVAL_SECONDS" "GO_WEBHOOK_DISPATCH_INTERVAL_SECONDS" "5"
    max_retries ← number "WEBHOOK_MAX_RETRIES" "GO_WEBHOOK_MAX_RETRIES" "5"
    rps ← number "RATE_LIMIT_RPS" "GO_RATE_LIMIT_RPS" "20"
    burst ← number "RATE_LIMIT_BURST" "GO_RATE_LIMIT_BURST" "40"
    good (record {
      access_ttl = access_ttl;
      refresh_ttl = refresh_ttl;
      dispatch_interval = interval;
      max_retries = max_retries;
      rps = rps;
      burst = burst;
    })

  abbrev pub config : Numbers → String → Config
  config n url = record {
    app_env = get_env_any getenv ("APP_ENV" ∷ "GO_APP_ENV" ∷ []) "development";
    app_port = get_env_any getenv ("APP_PORT" ∷ "PORT" ∷ "GO_APP_PORT" ∷ []) "8080";
    log_level = get_env_any getenv ("APP_LOG_LEVEL" ∷ "GO_APP_LOG_LEVEL" ∷ []) "info";
    database_url = url;
    migrations_dir = get_env_any getenv ("MIGRATIONS_DIR" ∷ "GO_MIGRATIONS_DIR" ∷ []) "migrations";
    jwt_private_key_path =
        get_env_any getenv ("JWT_PRIVATE_KEY_PATH" ∷ "GO_JWT_PRIVATE_KEY_PATH" ∷ [])
          "/app/.tools/keys/jwt_private_dev.pem";
    jwt_public_key_path =
        get_env_any getenv ("JWT_PUBLIC_KEY_PATH" ∷ "GO_JWT_PUBLIC_KEY_PATH" ∷ [])
          "/app/.tools/keys/jwt_public_dev.pem";
    jwt_private_key_pem =
        get_env_any getenv ("JWT_PRIVATE_KEY_PEM" ∷ "GO_JWT_PRIVATE_KEY_PEM" ∷ []) "";
    jwt_public_key_pem =
        get_env_any getenv ("JWT_PUBLIC_KEY_PEM" ∷ "GO_JWT_PUBLIC_KEY_PEM" ∷ []) "";
    jwt_issuer = get_env_any getenv ("JWT_ISSUER" ∷ "GO_JWT_ISSUER" ∷ []) "ficct-go";
    jwt_audience = split_csv (
        get_env_any getenv ("JWT_AUDIENCE" ∷ "GO_JWT_AUDIENCE" ∷ [])
          "ficct-express,ficct-django,ficct-angular,ficct-mobile");
    jwt_key_id = get_env_any getenv ("JWT_KEY_ID" ∷ "GO_JWT_KEY_ID" ∷ []) "dev-1";
    jwt_access_ttl = times_int64 n.access_ttl minute;
    jwt_refresh_ttl = times_int64 (times_int64 n.refresh_ttl 24) hour;
    cors_allowed_origins = split_csv (
        get_env_any getenv ("CORS_ALLOWED_ORIGINS" ∷ "GO_CORS_ALLOWED_ORIGINS" ∷ [])
          "http://localhost:4200");
    webhook_invoice_url =
        get_env_any getenv ("WEBHOOK_INVOICE_URL" ∷ "GO_WEBHOOK_INVOICE_URL" ∷ []) "";
    webhook_hmac_secret =
        get_env_any getenv ("WEBHOOK_HMAC_SECRET" ∷ "GO_WEBHOOK_HMAC_SECRET" ∷ []) "";
    webhook_dispatch_interval = times_int64 n.dispatch_interval second;
    webhook_max_retries = n.max_retries;
    rate_limit_rps = n.rps;
    rate_limit_burst = n.burst;
    expo_push_api_url =
        get_env_any getenv ("EXPO_PUSH_API_URL" ∷ "GO_EXPO_PUSH_API_URL" ∷ [])
          "https://exp.host/--/api/v2/push/send";
    expo_push_access_token =
        get_env_any getenv ("EXPO_PUSH_ACCESS_TOKEN" ∷ "GO_EXPO_PUSH_ACCESS_TOKEN" ∷ []) "";
  }

  unfoldable pub load : Result ConfigError Config
  load = do
    numbers ← load_numbers
    url ← required (get_env_any getenv ("DATABASE_URL" ∷ "GO_DATABASE_URL" ∷ []) "")
    good (config numbers url)
