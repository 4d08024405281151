-- ===== src/Tokens.antt =====
-- internal/auth/jwt.go: the access tokens. The package jwt is a library.
use ficct_boutique_backend_g.Base.{String, Option, none, some, List}
use ficct_boutique_backend_g.Base.Int.{ℤ, pos, pos_part, ◌+ℤ◌}
use ficct_boutique_backend_g.Base.Result.{Result, good, bad}
use ficct_boutique_backend_g.Keys.{KeyPair, KeyError}
use ficct_boutique_backend_g.Models.{Uuid, Timestamp, Role}
use ficct_boutique_backend_g.Authz.{Claims}

-- The payload: the claims that the program reads, and the other registered ones.
pub record Payload : Type 0 where
  pub claims : Claims
  pub issuer : String
  pub audience : List String
  pub expires_at : Timestamp
  pub issued_at : Timestamp
  pub not_before : Timestamp
  pub id : Uuid

pub record TokenIssuer : Type 0 where
  pub key_id : String
  pub issuer : String
  pub audience : List String
  pub access_ttl : ℤ

pub record TokenVerifier : Type 0 where
  pub issuer : String
  pub audience : String

-- The libraries: uuid's text of an identifier, the time as a NumericDate, the signature of a payload
-- under the header `kid` with the private key, and ParseWithClaims at a time, with the public key, for
-- RS256, an issuer and an audience, of a token that comes out valid.
pub record Jwt : Type 0 where
  pub uuid_text : Uuid → String
  pub numeric_date : Timestamp → Timestamp
  pub sign : String → Payload → Option String
  pub parse_with_claims : Timestamp → String → String → String → Option Payload

-- now.Add(t.accessTTL)
abbrev pub expiry : TokenIssuer → Timestamp → Timestamp
expiry t now = pos_part (pos now +ℤ t.access_ttl)

-- Two times of a token, and its identifier, are drawn by the call.
abbrev pub payload :
    Jwt → TokenIssuer → Timestamp → Uuid → Uuid → String → Role → Option Uuid → Payload
payload J t now id user email role branch = record {
  claims = record { role = role; branch_id = branch; email = email; subject = J.uuid_text user };
  issuer = t.issuer;
  audience = t.audience;
  expires_at = J.numeric_date (expiry t now);
  issued_at = J.numeric_date now;
  not_before = J.numeric_date now;
  id = id;
}

abbrev pub with_expiry : Timestamp → Option String → Option (String × Timestamp)
with_expiry exp none = none
with_expiry exp (some token) = some (token, exp)

-- The token and its time of expiry; none for the error of the signature.
unfoldable pub issue_access :
    Jwt
    → TokenIssuer
    → Timestamp
    → Uuid
    → Uuid
    → String
    → Role
    → Option Uuid
    → Option (String × Timestamp)
issue_access J t now id user email role branch =
    with_expiry (expiry t now) (J.sign t.key_id (payload J t now id user email role branch))

abbrev pub claims_of : Option Payload → Option Claims
claims_of none = none
claims_of (some p) = some p.claims

-- The claims of a valid token; none for any error.
unfoldable pub verify : Jwt → TokenVerifier → Timestamp → String → Option Claims
verify J v now token = claims_of (J.parse_with_claims now v.issuer v.audience token)

-- `keys.Private == nil`
abbrev pub issuer_with :
    {K : Type 0} → Option K → String → String → List String → ℤ → Result KeyError TokenIssuer
issuer_with none key_id issuer audience ttl = bad KeyError.issuer_without_private
issuer_with (some k) key_id issuer audience ttl =
    good (record { key_id = key_id; issuer = issuer; audience = audience; access_ttl = ttl })

unfoldable pub new_issuer :
    {K P : Type 0} → KeyPair K P → String → List String → ℤ → Result KeyError TokenIssuer
new_issuer keys issuer audience ttl = issuer_with keys.private keys.key_id issuer audience ttl

abbrev pub new_verifier : String → String → TokenVerifier
new_verifier issuer audience = record { issuer = issuer; audience = audience }
