-- ===== src/Server/Start.antt =====
-- With the keys that cmd/server/main.go loads, the issuer of tokens can always be made.
use ficct_boutique_backend_g.Base.{
  ◌≡◌, ◌∙◌, sym, ap, String, Bool, true, false, not, ◌||◌, some, str_eq, if◌then◌else◌,
}
use ficct_boutique_backend_g.Base.Result.{good, >>=-good, good-injective}
use ficct_boutique_backend_g.Config.{Config}
use ficct_boutique_backend_g.Keys.{
  Pem, KeyPair, load_private, load_public, load_key_pair, load_key_pair_from_pem, normalize_pem,
  require_private, parse_private, public_or_derived,
}
use ficct_boutique_backend_g.Tokens.{new_issuer, issuer_with}
use ficct_boutique_backend_g.Server.{key_pair_of, issuer_of}

module _ {K P : Type 0} (L : Pem K P) where
  -- A pair that signs.
  abbrev IsSigning : String → KeyPair K P → Type 0
  IsSigning key_id keys = (k : K) × (keys.private ≡ some k) × (keys.key_id ≡ key_id)

  load_key_pair-IsSigning :
      (a b key_id : String) (keys : KeyPair K P)
      → load_key_pair L a b key_id ≡ good keys
      → IsSigning key_id keys
  unfolding load_key_pair
  load_key_pair-IsSigning a b key_id keys h =
      let (k, h1) = >>=-good (load_private L a) _ keys h in
      let (p, h2) = >>=-good (load_public L b) _ keys h1 in
      let same = sym (good-injective h2) in
      (k, ap (λ (x : KeyPair K P). x.private) same, ap (λ (x : KeyPair K P). x.key_id) same)

  load_key_pair_from_pem-IsSigning :
      (a b key_id : String) (keys : KeyPair K P)
      → load_key_pair_from_pem L a b key_id ≡ good keys
      → IsSigning key_id keys
  unfolding load_key_pair_from_pem
  load_key_pair_from_pem-IsSigning a b key_id keys h =
      let (text, h1) = >>=-good (require_private L (normalize_pem a)) _ keys h in
      let (k, h2) = >>=-good (parse_private L text) _ keys h1 in
      let (p, h3) = >>=-good (public_or_derived L (normalize_pem b) k) _ keys h2 in
      let same = sym (good-injective h3) in
      (k, ap (λ (x : KeyPair K P). x.private) same, ap (λ (x : KeyPair K P). x.key_id) same)

  -- Keys that were loaded have a private one, so that the issuer is made, with the key identifier,
  -- the name, the audiences and the time to live of the settings.
  pub new_issuer-good :
      (cfg : Config) (keys : KeyPair K P)
      → key_pair_of L cfg ≡ good keys
      → new_issuer keys cfg.jwt_issuer cfg.jwt_audience cfg.jwt_access_ttl ≡ good (issuer_of cfg)
  unfolding key_pair_of new_issuer
  new_issuer-good cfg keys h =
      let (k, private, id) =
        signing (not (str_eq cfg.jwt_private_key_pem "") || not (str_eq cfg.jwt_public_key_pem ""))
          h in
      ap (λ o. issuer_with o keys.key_id cfg.jwt_issuer cfg.jwt_audience cfg.jwt_access_ttl) private
      ∙ ap (λ i. issuer_with (some k) i cfg.jwt_issuer cfg.jwt_audience cfg.jwt_access_ttl) id
    where
      signing :
          (b : Bool)
          → (if b
              then load_key_pair_from_pem L cfg.jwt_private_key_pem cfg.jwt_public_key_pem
                  cfg.jwt_key_id
              else load_key_pair L cfg.jwt_private_key_path cfg.jwt_public_key_path cfg.jwt_key_id)
            ≡ good keys
          → IsSigning cfg.jwt_key_id keys
      signing true g = load_key_pair_from_pem-IsSigning _ _ cfg.jwt_key_id keys g
      signing false g = load_key_pair-IsSigning _ _ cfg.jwt_key_id keys g
