-- ===== src/Server/Audience.antt =====
-- Whether the server of cmd/server/main.go accepts the tokens that it signs.
use ficct_boutique_backend_g.Base.{
  ◌≡◌, ◌∙◌, refl, sym, ap, String, ◌&&◌, Option, none, some, List, [], ◌∷◌, if◌then◌else◌,
  any_where, str_eq, eq_iff, ltb, leb,
}
use ficct_boutique_backend_g.Base.Result.{good, >>=-good, good-injective}
use ficct_boutique_backend_g.Models.{Uuid, Timestamp}
use ficct_boutique_backend_g.Store.{Db, Env, ok}
use ficct_boutique_backend_g.Password.{Argon}
use ficct_boutique_backend_g.Authz.{Claims}
use ficct_boutique_backend_g.Tokens.{Jwt, expiry}
use ficct_boutique_backend_g.UserRepo.{Cases}
use ficct_boutique_backend_g.AuthService.{AuthResult, login}
use ficct_boutique_backend_g.Middleware.{optional_auth}
use ficct_boutique_backend_g.Middleware.Bearer.{IsJwt, bearer, token-Context}
use ficct_boutique_backend_g.Config.{Config, get_env_any, split_csv, load_numbers, required, load}
use ficct_boutique_backend_g.Server.{issuer_of, verifier_of}

-- The audiences that the environment asks for.
abbrev pub audiences : (String → String) → List String
audiences getenv = split_csv (
    get_env_any getenv ("JWT_AUDIENCE" ∷ "GO_JWT_AUDIENCE" ∷ [])
      "ficct-express,ficct-django,ficct-angular,ficct-mobile")

load-audience :
    (getenv : String → String) (cfg : Config)
    → load getenv ≡ good cfg
    → cfg.jwt_audience ≡ audiences getenv
unfolding load
load-audience getenv cfg h =
    let (n, h1) = >>=-good (load_numbers getenv) _ cfg h in
    let (url, h2) =
      >>=-good (required (get_env_any getenv ("DATABASE_URL" ∷ "GO_DATABASE_URL" ∷ []) "")) _ cfg
        h1 in
    ap (λ (c : Config). c.jwt_audience) (good-injective (sym h2))

-- With the settings of an environment, the token of a login gives a request the account's claims, in
-- the time that the token is for, exactly if the audiences that the environment asks for have
-- "ficct-angular" among them: the server signs for these, but always verifies for that one. If it is
-- not among them, no token that the server gives is ever accepted by it.
pub login-audience :
    (J : Jwt) (parse : String → Option Uuid) (laws : IsJwt J parse) (C : Cases) (A : Argon)
    (getenv : String → String) (cfg : Config) (env : Env) (email password : String)
    (now : Timestamp) (db w : Db) (r : AuthResult)
    → load getenv ≡ good cfg
    → login C A J (issuer_of cfg) env email password db ≡ ok r w
    → (c : Claims) × (c.role ≡ r.user.role)
      × (parse c.subject ≡ some r.user.id)
      × (optional_auth J (verifier_of cfg) now (bearer r.access_token) ≡ (
          if any_where (str_eq "ficct-angular") (audiences getenv)
            && (ltb now (J.numeric_date (expiry (issuer_of cfg) env.now))
                && leb (J.numeric_date env.now) now)
          then some c
          else none))
login-audience J parse laws C A getenv cfg env email password now db w r loaded h =
    let t = issuer_of cfg in
    let in_time = ltb now (J.numeric_date (expiry t env.now)) && leb (J.numeric_date env.now) now in
    let (c, role, subject, context) =
      token-Context J parse laws C A t (verifier_of cfg) env email password now db w r h in
    (
      c,
      role,
      subject,
      context
          ∙ ap
              (λ b.
                if b && (any_where (str_eq "ficct-angular") cfg.jwt_audience && in_time)
                then some c
                else none)
              ((eq_iff cfg.jwt_issuer cfg.jwt_issuer).1 refl)
          ∙ ap (λ l. if any_where (str_eq "ficct-angular") l && in_time then some c else none)
              (load-audience getenv cfg loaded),
    )
