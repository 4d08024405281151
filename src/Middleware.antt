-- ===== src/Middleware.antt =====
-- internal/middleware: the bearer token of a request (auth.go), and the limit on its client
-- (ratelimit.go), in the order in which cmd/server/main.go puts them before the GraphQL handler.
pub mod Bearer
pub mod Fresh
use ficct_boutique_backend_g.Base.{
  ℕ, String, Bool, true, false, not, ◌||◌, Option, none, some, if◌then◌else◌, str_eq, ◌≡◌, refl,
}
use ficct_boutique_backend_g.Models.{Timestamp}
use ficct_boutique_backend_g.Authz.{Claims, Context}
use ficct_boutique_backend_g.Text.{trim_space, codes, lower_codes, codes_eq}
use ficct_boutique_backend_g.Text.Split.{split_two}
use ficct_boutique_backend_g.Tokens.{Jwt, TokenVerifier, verify}
use ficct_boutique_backend_g.RateLimiter.{Limits, Buckets, allow}

-- The headers that are read, empty where one is missing, and the address of the peer.
pub record Request : Type 0 where
  pub authorization : String
  pub forwarded_for : String
  pub remote_addr : String

-- http.Error with a status, or what the next handler gets.
pub data Handled (A : Type 0) : Type 0 where
  refused : ℕ → Handled A
  served : A → Handled A

-- `len(parts) != 2 || !strings.EqualFold(parts[0], "Bearer")`; the letters of "Bearer" fold to no
-- other letters than their capitals.
abbrev pub bearer_part : String × Option String → String
bearer_part (scheme, none) = ""
bearer_part (scheme, some rest) =
    if not (codes_eq (lower_codes (codes scheme)) (codes "bearer")) then "" else trim_space rest

unfoldable pub extract_bearer : Request → String
unfolding trim_space
extract_bearer r =
    if str_eq r.authorization "" then "" else bearer_part (split_two 32 r.authorization)

module _ (J : Jwt) (v : TokenVerifier) (now : Timestamp) where
  abbrev pub admit : Option Claims → Handled Context
  admit none = refused 401
  admit (some c) = served (some c)

  unfoldable pub require_auth : Request → Handled Context
  require_auth r =
      let tok = extract_bearer r in
      if str_eq tok "" then refused 401 else admit (verify J v now tok)

  -- The claims of a valid token stand in the context; any other request goes on without.
  unfoldable pub optional_auth : Request → Context
  optional_auth r = let tok = extract_bearer r in if str_eq tok "" then none else verify J v now tok

unfoldable pub client_key : Request → String
client_key r = if str_eq r.forwarded_for "" then r.remote_addr else r.forwarded_for

abbrev pub limited : {A : Type 0} → Bool × Buckets → A → Handled A × Buckets
limited (true, bs) a = (served a, bs)
limited (false, bs) a = (refused 429, bs)

-- RateLimiter.Middleware
unfoldable pub rate_limit : {A : Type 0} → Limits → ℕ → Request → A → Buckets → Handled A × Buckets
rate_limit l now r next bs = limited (allow l now (client_key r) bs) next

-- What the GraphQL handler gets of a request.
unfoldable pub serve :
    Jwt → TokenVerifier → Limits → Timestamp → Request → Buckets → Handled Context × Buckets
serve J v l now r bs = rate_limit l now r (optional_auth J v now r) bs

extracts :
    extract_bearer
      (record { authorization = "bearer  abc.def "; forwarded_for = ""; remote_addr = "" })
    ≡ "abc.def"
unfolding extract_bearer split_two
extracts = refl
