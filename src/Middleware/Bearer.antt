-- ===== src/Middleware/Bearer.antt =====
-- A login's token, sent back in the header of a request: internal/auth/jwt.go with
-- internal/middleware/auth.go.
use Prim.Native.Char.{code}
use Prim.Native.String.{◌++◌ as text_append}
use text.Mathlib.TextLemmas.{cons-append, nil-append, append_assoc, cons≢nil}
use ficct_boutique_backend_g.Base.{
  ◌≡◌, ◌∙◌, refl, sym, ap, String, Bool, true, false, ◌&&◌, Option, none, some, if◌then◌else◌,
  str_eq, eq_iff, ◌==◌, any_where, leb, ltb, Bool-cases, inl, inr, find_where,
}
use ficct_boutique_backend_g.Models.{Uuid, Timestamp, User}
use ficct_boutique_backend_g.Store.{Db, Env, ok, err, or_fail, Error}
use ficct_boutique_backend_g.Text.{trim_space, trim_left, trim_right, is_space}
use ficct_boutique_backend_g.Text.Split.{split_two, split_two-append}
use ficct_boutique_backend_g.Password.{Argon}
use ficct_boutique_backend_g.Authz.{Claims}
use ficct_boutique_backend_g.Tokens.{
  Payload, Jwt, TokenIssuer, TokenVerifier, payload, claims_of, verify, with_expiry, expiry,
  issue_access,
}
use ficct_boutique_backend_g.UserRepo.{Cases, find_by_id}
use ficct_boutique_backend_g.AuthService.{AuthResult, login}
use ficct_boutique_backend_g.AuthService.Login.{login-IsLogin}
use ficct_boutique_backend_g.Middleware.{Request, bearer_part, extract_bearer, optional_auth}
use ficct_boutique_backend_g.Queries.{me, null_if_missing}

-- No character of the text is a space.
abbrev pub HasNoSpace : String → Type 0
HasNoSpace String.[] = Unit
HasNoSpace (String.◌∷◌ c s) = (is_space (code c) ≡ false) × HasNoSpace s

trim_left-plain : (s : String) → HasNoSpace s → trim_left s ≡ s
unfolding trim_left
trim_left-plain String.[] h = refl
trim_left-plain (String.◌∷◌ c s) h = rw h.0 refl

trim_right-plain : (s : String) → HasNoSpace s → trim_right s ≡ s
unfolding trim_right
trim_right-plain String.[] h = refl
trim_right-plain (String.◌∷◌ c s) h = rw h.0 (ap (String.◌∷◌ c) (trim_right-plain s h.1))

trim_space-plain : (s : String) → HasNoSpace s → trim_space s ≡ s
unfolding trim_space
trim_space-plain s h = ap trim_right (trim_left-plain s h) ∙ trim_right-plain s h

-- The header that a client sends with a token.
abbrev pub bearer : String → Request
bearer token = record {
  authorization = text_append "Bearer " token;
  forwarded_for = "";
  remote_addr = "";
}

header_split :
    (token : String) → split_two 32 (text_append "Bearer " token) ≡ ("Bearer", some token)
header_split token =
    ap (split_two 32) (
      append_assoc "Bearer" " " token
      ∙ ap (text_append "Bearer")
          (cons-append " " String.[] token ∙ ap (String.◌∷◌ " ") (nil-append token)))
    ∙ split_two-append 32 "Bearer" " " token (refl, (refl, (refl, (refl, (refl, (refl, tt)))))) refl

header_not_empty : (token : String) → str_eq (text_append "Bearer " token) "" ≡ false
header_not_empty token = elim (Bool-cases (str_eq (text_append "Bearer " token) "")) [
  | inr other ↦ other
  | inl empty ↦ absurd (
      cons≢nil
        (sym (cons-append "B" "earer " token) ∙ (eq_iff (text_append "Bearer " token) "").0 empty))
]

pub extract_bearer-bearer :
    (token : String) → HasNoSpace token → extract_bearer (bearer token) ≡ token
unfolding extract_bearer
extract_bearer-bearer token h =
    ap (λ b. if b then "" else bearer_part (split_two 32 (text_append "Bearer " token)))
      (header_not_empty token)
    ∙ (ap bearer_part (header_split token) ∙ trim_space-plain token h)

-- The package jwt accepts a payload for an issuer and an audience at a time.
abbrev pub is_valid : Timestamp → String → String → Payload → Bool
is_valid now issuer audience p =
    str_eq p.issuer issuer
    && (any_where (str_eq audience) p.audience && (ltb now p.expires_at && leb p.not_before now))

-- The documented behaviour of the libraries, with the two keys of one pair: what is signed is a text
-- without spaces, and it is parsed back where the payload is valid; a UUID is parsed from its text.
pub record IsJwt (J : Jwt) (parse : String → Option Uuid) : Type 0 where
  pub texts : (u : Uuid) → parse (J.uuid_text u) ≡ some u
  pub compact :
      (kid : String) (p : Payload) (token : String)
      → J.sign kid p ≡ some token
      → HasNoSpace token × (str_eq token "" ≡ false)
  pub parsed :
      (kid : String) (p : Payload) (token : String) (now : Timestamp) (issuer audience : String)
      → J.sign kid p ≡ some token
      → J.parse_with_claims now issuer audience token
        ≡ (if is_valid now issuer audience p then some p else none)

issue_access-signs :
    (J : Jwt) (t : TokenIssuer) (o : Option String) (exp exp' : Timestamp) (token : String)
    → with_expiry exp o ≡ some (token, exp')
    → o ≡ some token
issue_access-signs J t none exp exp' token h = absurd (cc)
issue_access-signs J t (some x) exp exp' token h = cc

module _ (J : Jwt) (parse : String → Option Uuid) (laws : IsJwt J parse) where
  -- The context of a request with a signed token.
  signed-context :
      (t : TokenIssuer) (v : TokenVerifier) (now : Timestamp) (p : Payload) (token : String)
      → J.sign t.key_id p ≡ some token
      → optional_auth J v now (bearer token)
        ≡ claims_of (if is_valid now v.issuer v.audience p then some p else none)
  unfolding optional_auth verify
  signed-context t v now p token h =
      let (plain, some_text) = laws.compact t.key_id p token h in
      ap (λ s. if str_eq s "" then none else verify J v now s) (extract_bearer-bearer token plain)
      ∙ (ap (λ b. if b then none else verify J v now token) some_text
          ∙ ap claims_of (laws.parsed t.key_id p token now v.issuer v.audience h))

  -- What a request gets with the token of a login, whatever the server verifies for.
  pub token-Context :
      (C : Cases) (A : Argon) (t : TokenIssuer) (v : TokenVerifier) (env : Env)
      (email password : String) (now : Timestamp) (db w : Db) (r : AuthResult)
      → login C A J t env email password db ≡ ok r w
      → (c : Claims) × (c.role ≡ r.user.role)
        × (parse c.subject ≡ some r.user.id)
        × (optional_auth J v now (bearer r.access_token) ≡ (
            if str_eq t.issuer v.issuer
              && (any_where (str_eq v.audience) t.audience
                  && (ltb now (J.numeric_date (expiry t env.now))
                      && leb (J.numeric_date env.now) now))
            then some c
            else none))
  unfolding issue_access
  token-Context C A t v env email password now db w r h =
      let (seen, _) = login-IsLogin C A J t env email password db w r h in
      let u = r.user in
      let p = payload J t env.now (env.uuid 0) u.id u.email u.role none in
      let signed =
        issue_access-signs J t (J.sign t.key_id p) (expiry t env.now) r.expires_at r.access_token
          seen.issued in
      (
        p.claims,
        refl,
        laws.texts u.id,
        signed-context t v now p r.access_token signed
            ∙ valid_or_not (is_valid now v.issuer v.audience p) p,
      )
    where
      valid_or_not :
          (b : Bool) (p : Payload)
          → claims_of (if b then some p else none) ≡ (if b then some p.claims else none)
      valid_or_not true p = refl
      valid_or_not false p = refl

  -- The token of a login, sent as the bearer of a request, gives the request the claims of the
  -- account (its role, and an identifier that parses as the account's) while the token is valid, where
  -- the server verifies for the issuer and for one of the audiences that it signs for: from the time
  -- of the login to that of the expiry, both as the token has them. At any other time the request has
  -- no claims. With the claims, the query me answers the row that the table has, when it is asked, for
  -- the account's identifier.
  pub login-Context :
      (C : Cases) (A : Argon) (t : TokenIssuer) (v : TokenVerifier) (env : Env)
      (email password : String) (now : Timestamp) (db w d : Db) (r : AuthResult) (u : User)
      → login C A J t env email password db ≡ ok r w
      → str_eq t.issuer v.issuer ≡ true
      → any_where (str_eq v.audience) t.audience ≡ true
      → find_where (λ x. x.id == r.user.id) d.users ≡ some u
      → (c : Claims) × (c.role ≡ r.user.role)
        × (parse c.subject ≡ some r.user.id)
        × (optional_auth J v now (bearer r.access_token) ≡ (
            if ltb now (J.numeric_date (expiry t env.now)) && leb (J.numeric_date env.now) now
            then some c
            else none))
        × (me parse (some c) d ≡ ok (some u) d)
  unfolding me find_by_id
  login-Context C A t v env email password now db w d r u h issuer audience row =
      let (c, role, subject, context) = token-Context C A t v env email password now db w r h in
      let in_time =
        ltb now (J.numeric_date (expiry t env.now)) && leb (J.numeric_date env.now) now in
      (
        c,
        role,
        subject,
        context
            ∙ ap
                (λ b.
                  if b && (any_where (str_eq v.audience) t.audience && in_time)
                  then some c
                  else none)
                issuer
            ∙ ap (λ b. if b && in_time then some c else none) audience,
        ap
              (λ o. elim o [
                | none ↦ err Error.invalid_uuid d
                | some uid ↦ null_if_missing (find_by_id uid d)
              ])
              subject
            ∙ ap (λ o. null_if_missing (or_fail Error.not_found o d)) row,
      )
