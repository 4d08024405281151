-- ===== src/Examples/Accounts.antt =====
-- Accounts, passwords, tokens and settings, with small functions in place of the libraries.
use Prim.Native.String.{len}
use ficct_boutique_backend_g.Base.{
  ℕ, zero, suc, ◌%◌, ◌<◌, ◌≡◌, ◌∙◌, refl, sym, ap, subst, String, Bool, true, false, ◌&&◌, Option,
  none, some, List, [], ◌∷◌, if◌then◌else◌, str_eq, eq_iff, ◌==◌, ==_iff, All, arith, Bool-cases,
  inl, inr,
}
use ficct_boutique_backend_g.Models.{Uuid, Timestamp, Role, role_eq}
use ficct_boutique_backend_g.Text.Base64.{IsByte}
use ficct_boutique_backend_g.Password.{Argon, hash_password, verify_password, bytes_eq}
use ficct_boutique_backend_g.Password.RoundTrip.{IsArgon, key, verify-hash_password}
use ficct_boutique_backend_g.Authz.{Claims}
use ficct_boutique_backend_g.Tokens.{Payload, Jwt}
use ficct_boutique_backend_g.UserRepo.{Cases}
use ficct_boutique_backend_g.Middleware.Bearer.{HasNoSpace, is_valid, IsJwt}

-- The one address with capitals, in small letters.
abbrev lowered : String → String
lowered s = if str_eq s "Ana@Ficct.bo" then "ana@ficct.bo" else s

abbrev pub cases : Cases
cases = record { to_lower = lowered; sql_lower = lowered }

-- A key of the length that is asked for, all of whose bytes are the length of the password.
abbrev bytes : ℕ → ℕ → List ℕ
bytes zero b = []
bytes (suc n) b = b ∷ bytes n b

abbrev pub argon : Argon
argon = record {
  version = 19;
  id_key = λ password salt t m p n. some (bytes n (len password % 256));
}

bytes-All : (n b : ℕ) → b < 256 → All IsByte (bytes n b)
bytes-All zero b h = tt
bytes-All (suc n) b h = (h, bytes-All n b h)

pub argon-IsArgon : IsArgon argon
argon-IsArgon = record {
  small_version = refl;
  keys = λ password salt.
      (bytes 32 (len password % 256), refl, bytes-All 32 (len password % 256) (omega arith), refl);
}

abbrev pub salt : List ℕ
salt = bytes 16 7

pub salt-All : All IsByte salt
salt-All = bytes-All 16 7 (omega arith)

abbrev pub key_of : String → List ℕ
key_of password = bytes 32 (len password % 256)

verify-hash_password_example :
    (encoded : String) × (k k' : List ℕ) × (hash_password argon (some salt) "secreto-1"
      ≡ some encoded)
    × (key argon "secreto-1" salt ≡ some k)
    × (key argon "otro-secreto" salt ≡ some k')
    × (verify_password argon "otro-secreto" encoded ≡ some (bytes_eq k k'))
    × (verify_password argon "secreto-1" encoded ≡ some true)
verify-hash_password_example =
    verify-hash_password argon argon-IsArgon "secreto-1" "otro-secreto" salt salt-All refl

-- A UUID is written as that many strokes.
abbrev strokes : ℕ → String
strokes zero = String.[]
strokes (suc n) = String.◌∷◌ "1" (strokes n)

abbrev count : String → ℕ
count String.[] = 0
count (String.◌∷◌ c s) = suc (count s)

abbrev pub read_uuid : String → Option Uuid
read_uuid s = some (count s)

count-strokes : (n : ℕ) → count (strokes n) ≡ n
count-strokes zero = refl
count-strokes (suc n) = ap suc (count-strokes n)

-- The payload of Ana's login at time 6, and the one token that is ever signed.
abbrev ana_claims : Claims
ana_claims = record {
  role = Role.customer;
  branch_id = none;
  email = "ana@ficct.bo";
  subject = strokes 500;
}

abbrev ana_payload : Payload
ana_payload = record {
  claims = ana_claims;
  issuer = "ficct-go";
  audience = "ficct-angular" ∷ [];
  expires_at = 3600000000006;
  issued_at = 6;
  not_before = 6;
  id = 600;
}

abbrev is_one : String → List String → Bool
is_one a [] = false
is_one a (x ∷ []) = str_eq x a
is_one a (x ∷ y ∷ rest) = false

abbrev is_none : Option Uuid → Bool
is_none none = true
is_none (some x) = false

abbrev are_ana : Claims → Bool
are_ana c =
    role_eq c.role Role.customer
    && (is_none c.branch_id && (str_eq c.email "ana@ficct.bo" && str_eq c.subject (strokes 500)))

abbrev is_ana : Payload → Bool
is_ana p =
    are_ana p.claims
    && (str_eq p.issuer "ficct-go"
        && (is_one "ficct-angular" p.audience
            && (p.expires_at == 3600000000006
                && (p.issued_at == 6 && (p.not_before == 6 && p.id == 600)))))

is_one-eq : (a : String) (l : List String) → is_one a l ≡ true → l ≡ a ∷ []
is_one-eq a [] h = absurd (cc)
is_one-eq a (x ∷ []) h = ap (λ y. y ∷ []) ((eq_iff x a).0 h)
is_one-eq a (x ∷ y ∷ rest) h = absurd (cc)

is_none-eq : (o : Option Uuid) → is_none o ≡ true → o ≡ none
is_none-eq none h = refl
is_none-eq (some x) h = absurd (cc)

role-eq : (r : Role) → role_eq r Role.customer ≡ true → r ≡ Role.customer
role-eq Role.customer h = refl
role-eq Role.admin h = absurd (cc)
role-eq Role.staff h = absurd (cc)
role-eq Role.system h = absurd (cc)

both : (a b : Bool) → (a && b) ≡ true → (a ≡ true) × (b ≡ true)
both true b h = (refl, h)
both false b h = absurd (cc)

are_ana-eq : (c : Claims) → are_ana c ≡ true → c ≡ ana_claims
are_ana-eq c h =
    let (h1, k1) = both (role_eq c.role Role.customer) _ h in
    let (h2, k2) = both (is_none c.branch_id) _ k1 in
    let (h3, h4) = both (str_eq c.email "ana@ficct.bo") _ k2 in
    let e1 = role-eq c.role h1 in
    let e2 = is_none-eq c.branch_id h2 in
    let e3 = (eq_iff c.email "ana@ficct.bo").0 h3 in
    let e4 = (eq_iff c.subject (strokes 500)).0 h4 in
    λ i. record { role = e1 i; branch_id = e2 i; email = e3 i; subject = e4 i }

is_ana-eq : (p : Payload) → is_ana p ≡ true → p ≡ ana_payload
is_ana-eq p h =
    let (h1, k1) = both (are_ana p.claims) _ h in
    let (h2, k2) = both (str_eq p.issuer "ficct-go") _ k1 in
    let (h3, k3) = both (is_one "ficct-angular" p.audience) _ k2 in
    let (h4, k4) = both (p.expires_at == 3600000000006) _ k3 in
    let (h5, k5) = both (p.issued_at == 6) _ k4 in
    let (h6, h7) = both (p.not_before == 6) _ k5 in
    let e1 = are_ana-eq p.claims h1 in
    let e2 = (eq_iff p.issuer "ficct-go").0 h2 in
    let e3 = is_one-eq "ficct-angular" p.audience h3 in
    let e4 = (==_iff p.expires_at 3600000000006).0 h4 in
    let e5 = (==_iff p.issued_at 6).0 h5 in
    let e6 = (==_iff p.not_before 6).0 h6 in
    let e7 = (==_iff p.id 600).0 h7 in
    λ i. record {
      claims = e1 i;
      issuer = e2 i;
      audience = e3 i;
      expires_at = e4 i;
      issued_at = e5 i;
      not_before = e6 i;
      id = e7 i;
    }

abbrev sign_ana : String → Payload → Option String
sign_ana kid p = if is_ana p then some "h.p.s" else none

abbrev parsed : Timestamp → String → String → String → Option Payload
parsed now issuer audience token =
    if str_eq token "h.p.s" && is_valid now issuer audience ana_payload
    then some ana_payload
    else none

abbrev pub jwt : Jwt
jwt = record {
  uuid_text = strokes;
  numeric_date = λ t. t;
  sign = sign_ana;
  parse_with_claims = parsed;
}

signed :
    (kid : String) (p : Payload) (token : String)
    → sign_ana kid p ≡ some token
    → (p ≡ ana_payload) × (token ≡ "h.p.s")
signed kid p token h = elim (Bool-cases (is_ana p)) [
  | inl ana ↦ (is_ana-eq p ana, sym (some-eq (rw ana at h)))
  | inr other ↦ absurd (none-eq (rw other at h))
]
  where
    some-eq : {a b : String} → some a ≡ some b → a ≡ b
    some-eq h = cc

    none-eq : {a : String} → none ≡ some a → ⊥
    none-eq h = cc

pub jwt-IsJwt : IsJwt jwt read_uuid
jwt-IsJwt = record {
  texts = λ u. ap some (count-strokes u);
  compact = λ kid p token h.
      let (_, t) = signed kid p token h in
      (
        subst HasNoSpace (sym t) (refl, (refl, (refl, (refl, (refl, tt))))),
        ap (λ s. str_eq s "") t,
      );
  parsed = λ kid p token now issuer audience h.
      let (p_is, t) = signed kid p token h in
      ap (parsed now issuer audience) t
      ∙ sym (ap (λ q. if is_valid now issuer audience q then some q else none) p_is);
}
