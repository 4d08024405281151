-- ===== src/Keys.antt =====
-- internal/auth/keys.go: the keys that sign and verify tokens.
use Prim.Native.Char.{code}
use ficct_boutique_backend_g.Base.{String, Option, none, some, ◌&&◌, ◌==◌, if◌then◌else◌, str_eq}
use ficct_boutique_backend_g.Base.Result.{Result, good, bad, ◌>>=◌, or_bad}
use ficct_boutique_backend_g.Text.{trim_space}

-- The packages os and jwt: a file, the keys in a PEM text, and the public key of a private one.
pub record Pem (K P : Type 0) : Type 0 where
  pub read_file : String → Option String
  pub parse_private_pem : String → Option K
  pub parse_public_pem : String → Option P
  pub public_of : K → P

-- `nil` in place of the private key is none.
pub record KeyPair (K P : Type 0) : Type 0 where
  pub private : Option K
  pub public : P
  pub key_id : String

pub data KeyError : Type 0 where
  private_required private_not_read public_not_read private_not_parsed public_not_parsed
        issuer_without_private :
      KeyError

-- strings.ReplaceAll(value, `\n`, "\n"): a backslash and an "n" become a line break.
unfoldable pub replace_escapes : String → String
replace_escapes String.[] = String.[]
replace_escapes (String.◌∷◌ c String.[]) = String.◌∷◌ c String.[]
replace_escapes (String.◌∷◌ c (String.◌∷◌ d s)) =
    let behind = replace_escapes s in
    let rest = replace_escapes (String.◌∷◌ d s) in
    if code c == 92 && code d == 110 then String.◌∷◌ "\n" behind else String.◌∷◌ c rest

unfoldable pub normalize_pem : String → String
normalize_pem value =
    let trimmed = trim_space value in if str_eq trimmed "" then "" else replace_escapes trimmed

module _ {K P : Type 0} (L : Pem K P) where
  abbrev pub parse_private : String → Result KeyError K
  parse_private data_text = or_bad KeyError.private_not_parsed (L.parse_private_pem data_text)

  abbrev pub parse_public : String → Result KeyError P
  parse_public data_text = or_bad KeyError.public_not_parsed (L.parse_public_pem data_text)

  abbrev pub load_private : String → Result KeyError K
  load_private path = or_bad KeyError.private_not_read (L.read_file path) >>= parse_private

  abbrev pub load_public : String → Result KeyError P
  load_public path = or_bad KeyError.public_not_read (L.read_file path) >>= parse_public

  unfoldable pub load_key_pair : String → String → String → Result KeyError (KeyPair K P)
  load_key_pair private_path public_path key_id = do
    priv ← load_private private_path
    pub_key ← load_public public_path
    good (record { private = some priv; public = pub_key; key_id = key_id })

  -- `if publicPEM != ""`
  abbrev pub public_or_derived : String → K → Result KeyError P
  public_or_derived text priv =
      if str_eq text "" then good (L.public_of priv) else parse_public text

  abbrev pub require_private : String → Result KeyError String
  require_private text = if str_eq text "" then bad KeyError.private_required else good text

  unfoldable pub load_key_pair_from_pem : String → String → String → Result KeyError (KeyPair K P)
  unfolding normalize_pem
  load_key_pair_from_pem private_pem public_pem key_id = do
    text ← require_private (normalize_pem private_pem)
    priv ← parse_private text
    pub_key ← public_or_derived (normalize_pem public_pem) priv
    good (record { private = some priv; public = pub_key; key_id = key_id })

  unfoldable pub load_public_only : String → String → Result KeyError (KeyPair K P)
  load_public_only public_path key_id = do
    pub_key ← load_public public_path
    good (record { private = none; public = pub_key; key_id = key_id })
