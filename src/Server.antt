-- ===== src/Server.antt =====
-- cmd/server/main.go: what signs tokens and what verifies them, from the settings.
pub mod Audience
pub mod Start
use ficct_boutique_backend_g.Base.{String, Bool, ◌||◌, not, str_eq, if◌then◌else◌}
use ficct_boutique_backend_g.Base.Result.{Result}
use ficct_boutique_backend_g.Keys.{Pem, KeyPair, KeyError, load_key_pair, load_key_pair_from_pem}
use ficct_boutique_backend_g.Config.{Config}
use ficct_boutique_backend_g.Tokens.{TokenIssuer, TokenVerifier, new_verifier}

-- The keys of the settings, as texts if one is given, and from files otherwise.
unfoldable pub key_pair_of : {K P : Type 0} → Pem K P → Config → Result KeyError (KeyPair K P)
key_pair_of L cfg =
    if not (str_eq cfg.jwt_private_key_pem "") || not (str_eq cfg.jwt_public_key_pem "")
    then load_key_pair_from_pem L cfg.jwt_private_key_pem cfg.jwt_public_key_pem cfg.jwt_key_id
    else load_key_pair L cfg.jwt_private_key_path cfg.jwt_public_key_path cfg.jwt_key_id

-- auth.NewIssuer(keys, cfg.JWTIssuer, cfg.JWTAudience, cfg.JWTAccessTTL), where the keys are loaded.
abbrev pub issuer_of : Config → TokenIssuer
issuer_of cfg = record {
  key_id = cfg.jwt_key_id;
  issuer = cfg.jwt_issuer;
  audience = cfg.jwt_audience;
  access_ttl = cfg.jwt_access_ttl;
}

-- auth.NewVerifier(keys, cfg.JWTIssuer, "ficct-angular")
abbrev pub verifier_of : Config → TokenVerifier
verifier_of cfg = new_verifier cfg.jwt_issuer "ficct-angular"
