-- ===== src/PushTokenRepo.antt =====
-- internal/repository/push_tokens.go: one row for each device token.
pub mod Tokens
use ficct_boutique_backend_g.Base.{
  ℕ, Bool, true, false, String, Option, none, some, List, [], ◌∷◌, ◌&&◌, not, ◌==◌, if◌then◌else◌,
  find_where, select_where, any_where, update_where, insert_row, order_by, leb, str_eq,
}
use ficct_boutique_backend_g.Models.{Uuid, PushPlatform, PushToken}
use ficct_boutique_backend_g.Store.{
  Db, Error, Tx, Env, ok, pure, ◌>>=◌, ◌>>◌, gets, fail_if, or_fail,
}

abbrev pub put_push_tokens : List PushToken → Tx (Unit {0})
put_push_tokens rows db = ok tt (record db { push_tokens = rows })

-- WHERE token = $1
abbrev pub is_token : String → PushToken → Bool
is_token token t = str_eq t.token token

abbrev pub new_token : Env → Uuid → String → PushPlatform → Option String → PushToken
new_token env user token platform device = record {
  id = env.uuid 0;
  user_id = user;
  token = token;
  platform = platform;
  device_id = device;
  is_active = true;
  last_seen_at = env.now;
  created_at = env.now;
  updated_at = env.now;
}

abbrev pub taken_over : Env → Uuid → PushPlatform → Option String → PushToken → PushToken
taken_over env user platform device t = record t {
  user_id = user;
  platform = platform;
  device_id = device;
  is_active = true;
  last_seen_at = env.now;
  updated_at = env.now;
}

-- ON CONFLICT (token), with the row that the token finds.
abbrev pub on_token :
    Env
    → Uuid
    → String
    → PushPlatform
    → Option String
    → List PushToken
    → Option PushToken
    → Tx PushToken
on_token env user token platform device rows (some t) =
    put_push_tokens (update_where (is_token token) (taken_over env user platform device) rows)
    >> pure (taken_over env user platform device t)
on_token env user token platform device rows none =
    fail_if (any_where (λ t. t.id == env.uuid 0) rows) Error.unique_violation
    >> (put_push_tokens (insert_row (new_token env user token platform device) rows)
        >> pure (new_token env user token platform device))

-- INSERT … ON CONFLICT (token) DO UPDATE … RETURNING …, with the foreign key on users.
unfoldable pub upsert : Env → Uuid → String → PushPlatform → Option String → Tx PushToken
upsert env user token platform device = do
  rows ← gets (λ db. db.push_tokens)
  known ← gets (λ db. any_where (λ u. u.id == user) db.users)
  fail_if (not known) Error.foreign_key_violation
  on_token env user token platform device rows (find_where (is_token token) rows)

abbrev pub switched_off : Env → PushToken → PushToken
switched_off env t = record t { is_active = false; updated_at = env.now }

-- UPDATE … WHERE token = $1 AND user_id = $2
unfoldable pub deactivate : Env → Uuid → String → Tx (Unit {0})
deactivate env user token = do
  rows ← gets (λ db. db.push_tokens)
  put_push_tokens
      (update_where (λ t. is_token token t && t.user_id == user) (switched_off env) rows)

unfoldable pub deactivate_by_token : Env → String → Tx (Unit {0})
deactivate_by_token env token = do
  rows ← gets (λ db. db.push_tokens)
  put_push_tokens (update_where (is_token token) (switched_off env) rows)

-- ORDER BY last_seen_at DESC
abbrev pub newest_first : List PushToken → List PushToken
newest_first = order_by (λ x y. leb y.last_seen_at x.last_seen_at)

unfoldable pub list_active_by_user : Uuid → Tx (List PushToken)
list_active_by_user user =
    gets (λ db. newest_first (select_where (λ t. t.user_id == user && t.is_active) db.push_tokens))

unfoldable pub list_all_active : Tx (List PushToken)
list_all_active = gets (λ db. newest_first (select_where (λ t. t.is_active) db.push_tokens))

-- user_id = ANY($1)
abbrev pub is_among : List Uuid → Uuid → Bool
is_among users u = any_where (λ x. u == x) users

abbrev pub is_none_given : List Uuid → Bool
is_none_given [] = true
is_none_given (u ∷ us) = false

unfoldable pub list_active_for_users : List Uuid → Tx (List PushToken)
list_active_for_users users =
    if is_none_given users
    then pure []
    else gets (λ db.
      newest_first (select_where (λ t. is_among users t.user_id && t.is_active) db.push_tokens))

unfoldable pub find_by_token : String → Tx PushToken
find_by_token token db = or_fail Error.not_found (find_where (is_token token) db.push_tokens) db
