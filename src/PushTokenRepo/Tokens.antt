-- ===== src/PushTokenRepo/Tokens.antt =====
-- Each device token belongs to one user at a time: internal/repository/push_tokens.go.
use ficct_boutique_backend_g.Base.{
  ◌≡◌, refl, ◌∙◌, sym, ap, subst, true, false, Bool, String, Option, some, none, List, [], ◌∷◌,
  ◌&&◌, ◌==◌, not, inl, inr, if◌then◌else◌, find_where, any_where, update_where, insert_row, arith,
  Bool-cases, any-order_by, any-select_where, find_where-update_self, find_where-insert_row,
  find_where-none_iff_any, any_where-append, any_where-update_where, str_eq, eq_iff,
  update_where-none,
}
use ficct_boutique_backend_g.Models.{Uuid, PushToken, PushPlatform}
use ficct_boutique_backend_g.Store.{Db, Env, Error, ok, after, or_fail}
use ficct_boutique_backend_g.Store.Laws.{ok-injective, fail_if-eq-ok}
use ficct_boutique_backend_g.PushTokenRepo.{
  is_token, new_token, taken_over, on_token, upsert, switched_off, deactivate, find_by_token,
  list_active_by_user,
}

-- UNIQUE (token)
abbrev pub HasUniqueTokens : List PushToken → Type 0
HasUniqueTokens [] = Unit
HasUniqueTokens (t ∷ ts) = (any_where (is_token t.token) ts ≡ false) × HasUniqueTokens ts

abbrev KeepsToken : (PushToken → PushToken) → Type 0
KeepsToken f = (t : PushToken) → (f t).token ≡ t.token

str_eq_comm : (a b : String) → str_eq a b ≡ str_eq b a
str_eq_comm a b = elim (Bool-cases (str_eq a b)) [
  | inl same ↦ same ∙ sym ((eq_iff b a).1 (sym ((eq_iff a b).0 same)))
  | inr other ↦ elim (Bool-cases (str_eq b a)) [
    | inl same ↦ ap (str_eq a) ((eq_iff b a).0 same) ∙ ((eq_iff a a).1 refl ∙ sym same)
    | inr never ↦ other ∙ sym never
  ]
]

either_token :
    (b : Bool) (f : PushToken → PushToken) (t : PushToken)
    → KeepsToken f
    → (if b then f t else t).token ≡ t.token
either_token true f t k = k t
either_token false f t k = refl

update-HasUniqueTokens :
    (p : PushToken → Bool) (f : PushToken → PushToken) (ts : List PushToken)
    → KeepsToken f
    → HasUniqueTokens ts
    → HasUniqueTokens (update_where p f ts)
update-HasUniqueTokens p f [] k u = tt
update-HasUniqueTokens p f (t ∷ ts) k u = (
  ap (λ w. any_where (is_token w) (update_where p f ts)) (either_token (p t) f t k)
      ∙ (any_where-update_where (is_token t.token) p f ts (λ x. ap (λ w. str_eq w t.token) (k x))
          ∙ u.0),
  update-HasUniqueTokens p f ts k u.1,
)

insert-HasUniqueTokens :
    (t : PushToken) (ts : List PushToken)
    → any_where (is_token t.token) ts ≡ false
    → HasUniqueTokens ts
    → HasUniqueTokens (insert_row t ts)
insert-HasUniqueTokens t [] h u = (refl, tt)
insert-HasUniqueTokens t (x ∷ xs) h u = (
  ground (arith, any_where-append (is_token x.token) xs (t ∷ []), str_eq_comm t.token x.token),
  insert-HasUniqueTokens t xs (ground arith) u.1,
)

on_token-HasUniqueTokens :
    (env : Env) (user : Uuid) (token : String) (platform : PushPlatform) (device : Option String)
    (o : Option PushToken) (db w : Db) (t : PushToken)
    → find_where (is_token token) db.push_tokens ≡ o
    → HasUniqueTokens db.push_tokens
    → on_token env user token platform device db.push_tokens o db ≡ ok t w
    → HasUniqueTokens w.push_tokens
on_token-HasUniqueTokens env user token platform device (some x) db w t found u h =
    subst (λ (d : Db). HasUniqueTokens d.push_tokens) (ok-injective h).1
      (update-HasUniqueTokens (is_token token) (taken_over env user platform device) db.push_tokens
        (λ _. refl) u)
on_token-HasUniqueTokens env user token platform device none db w t missing u h =
    let (_, k) =
      fail_if-eq-ok (any_where (λ t. t.id == env.uuid 0) db.push_tokens) Error.unique_violation _ db
        h in
    subst (λ (d : Db). HasUniqueTokens d.push_tokens) (ok-injective k).1
      (insert-HasUniqueTokens (new_token env user token platform device) db.push_tokens
        (find_where-none_iff_any (is_token token) db.push_tokens missing) u)

find_taken_over :
    (env : Env) (user : Uuid) (token : String) (platform : PushPlatform) (device : Option String)
    (o : Option PushToken) (db w : Db) (t : PushToken)
    → find_where (is_token token) db.push_tokens ≡ o
    → on_token env user token platform device db.push_tokens o db ≡ ok t w
    → (find_where (is_token token) w.push_tokens ≡ some t)
      × (t.user_id ≡ user)
      × (t.is_active ≡ true)
find_taken_over env user token platform device (some x) db w t found h =
    let (same, left) = ok-injective h in
    (
      ap (λ (d : Db). find_where (is_token token) d.push_tokens) (sym left)
          ∙ (find_where-update_self (is_token token) _ db.push_tokens x (λ _. refl) found
              ∙ ap some same),
      ap (λ (x : PushToken). x.user_id) (sym same),
      ap (λ (x : PushToken). x.is_active) (sym same),
    )
find_taken_over env user token platform device none db w t missing h =
    let (_, k) =
      fail_if-eq-ok (any_where (λ t. t.id == env.uuid 0) db.push_tokens) Error.unique_violation _ db
        h in
    let (same, left) = ok-injective k in
    (
      ap (λ (d : Db). find_where (is_token token) d.push_tokens) (sym left)
          ∙ (find_where-insert_row (is_token token) (new_token env user token platform device)
                db.push_tokens missing ((eq_iff token token).1 refl)
              ∙ ap some same),
      ap (λ (x : PushToken). x.user_id) (sym same),
      ap (λ (x : PushToken). x.is_active) (sym same),
    )

-- Registering a device's token keeps one row for each token. Whoever had the token before, it is
-- the caller's afterwards, and active.
pub upsert-HasUniqueTokens :
    (env : Env) (user : Uuid) (token : String) (platform : PushPlatform) (device : Option String)
    (db w : Db) (t : PushToken)
    → HasUniqueTokens db.push_tokens
    → upsert env user token platform device db ≡ ok t w
    → HasUniqueTokens w.push_tokens
      × (find_by_token token w ≡ ok t w)
      × (t.user_id ≡ user)
      × (t.is_active ≡ true)
unfolding upsert find_by_token
upsert-HasUniqueTokens env user token platform device db w t u h =
    let (_, k) =
      fail_if-eq-ok (not (any_where (λ x. x.id == user) db.users)) Error.foreign_key_violation _ db
        h in
    let (found, mine, active) = find_taken_over env user token platform device _ db w t refl k in
    (
      on_token-HasUniqueTokens env user token platform device _ db w t refl u k,
      ap (λ o. or_fail Error.not_found o w) found,
      mine,
      active,
    )

-- Unregistering a token that is another user's, or nobody's, changes nothing.
pub deactivate-foreign :
    (env : Env) (user : Uuid) (token : String) (db : Db)
    → any_where (λ t. is_token token t && t.user_id == user) db.push_tokens ≡ false
    → deactivate env user token db ≡ ok tt db
unfolding deactivate
deactivate-foreign env user token db h =
    ap (λ ts. ok tt (record db { push_tokens = ts }))
      (update_where-none (λ t. is_token token t && t.user_id == user) (switched_off env)
        db.push_tokens h)

none_active :
    (env : Env) (user : Uuid) (token : String) (ts : List PushToken)
    → any_where
        (λ t. is_token token t && (t.user_id == user && t.is_active))
        (update_where (λ t. is_token token t && t.user_id == user) (switched_off env) ts)
      ≡ false
none_active env user token [] = refl
none_active env user token (t ∷ ts) = ground (arith, none_active env user token ts)

-- After a user has unregistered a token, it is not among the devices that a push to that user goes
-- to.
pub deactivate-inactive :
    (env : Env) (user : Uuid) (token : String) (db : Db) (ts : List PushToken)
    → list_active_by_user user (after (deactivate env user token db))
      ≡ ok ts (after (deactivate env user token db))
    → any_where (is_token token) ts ≡ false
unfolding deactivate list_active_by_user
deactivate-inactive env user token db ts h =
    ap (any_where (is_token token)) (sym (ok-injective h).0)
    ∙ (any-order_by (is_token token) _ _
        ∙ (any-select_where (is_token token) _ _ ∙ none_active env user token db.push_tokens))
