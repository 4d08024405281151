-- ===== src/Mutations/Registering.antt =====
-- graph/mutations.go: registerPushToken and unregisterPushToken.
use ficct_boutique_backend_g.Base.{String, Bool, true, Option, none, some, if◌then◌else◌}
use ficct_boutique_backend_g.Models.{Uuid, PushPlatform, PushToken}
use ficct_boutique_backend_g.Store.{Error, Tx, Env, pure, ◌>>=◌, ◌>>◌, fail_if, or_fail}
use ficct_boutique_backend_g.Authz.{Context, check, require_auth, parse_or_fail}
use ficct_boutique_backend_g.PushTokenRepo
use ficct_boutique_backend_g.Text.{trim_space, is_blank, codes, lower_codes, codes_eq}

-- `claims, _ := middleware.ClaimsFromContext(ctx)`, of an authenticated caller.
abbrev pub subject_of : Context → String
subject_of none = ""
subject_of (some c) = c.subject

-- The three platforms, by strings.ToLower.
unfoldable pub platform_of : String → Option PushPlatform
platform_of s =
    let p = lower_codes (codes s) in
    if codes_eq p (codes "ios")
    then some PushPlatform.ios
    else if codes_eq p (codes "android")
    then some PushPlatform.android
    else if codes_eq p (codes "web")
    then some PushPlatform.web
    else none

module _ (parse : String → Option Uuid) where
  unfoldable pub register_push_token :
      Env → Context → String → String → Option String → Tx PushToken
  register_push_token env ctx token platform device = do
    check (require_auth ctx)
    uid ← parse_or_fail parse (subject_of ctx)
    fail_if (is_blank (trim_space token)) Error.token_required
    p ← or_fail Error.unknown_platform (platform_of platform)
    PushTokenRepo.upsert env uid (trim_space token) p device

  unfoldable pub unregister_push_token : Env → Context → String → Tx Bool
  unregister_push_token env ctx token = do
    check (require_auth ctx)
    uid ← parse_or_fail parse (subject_of ctx)
    fail_if (is_blank (trim_space token)) Error.token_required
    PushTokenRepo.deactivate env uid (trim_space token)
    pure true
