-- ===== src/Password.antt =====
-- internal/auth/password.go: password hashes in the PHC format. argon2 is a library.
pub mod RoundTrip
use Prim.Native.String.{◌++◌ as text_append, len}
use ficct_boutique_backend_g.Base.{
  ℕ, ◌+◌, ◌*◌, ◌^◌, ◌%◌, String, Bool, true, false, ◌&&◌, not, Option, none, some, List, [], ◌∷◌,
  ltb, ◌==◌, length, str_eq, if◌then◌else◌,
}
use ficct_boutique_backend_g.Base.Int.{ℤ, pos, eq_ℤ}
use ficct_boutique_backend_g.Text.Split.{split}
use ficct_boutique_backend_g.Text.Base64.{encode, decode}
use ficct_boutique_backend_g.Text.Scan.{decimal, literal, scan_int, scan_uint}

abbrev pub argon_memory : ℕ
argon_memory = 64 * 1024

abbrev pub argon_iterations : ℕ
argon_iterations = 3

abbrev pub argon_parallelism : ℕ
argon_parallelism = 2

abbrev pub argon_key_length : ℕ
argon_key_length = 32

-- The package argon2: its Version, and IDKey of a password, a salt, the time, the memory, the
-- threads and the length of the key; none where it panics.
pub record Argon : Type 0 where
  pub version : ℕ
  pub id_key : String → List ℕ → ℕ → ℕ → ℕ → ℕ → Option (List ℕ)

-- fmt.Sprintf("$argon2id$v=%d$m=%d,t=%d,p=%d$%s$%s", …), one field after the other.
abbrev pub version_field : ℕ → String
version_field v = text_append "v=" (decimal v)

abbrev pub params_field : ℕ → ℕ → ℕ → String
params_field m t p = text_append "m=" (
    text_append (decimal m)
      (text_append ",t=" (text_append (decimal t) (text_append ",p=" (decimal p)))))

abbrev pub dollar : String → String → String
dollar a b = text_append a (text_append "$" b)

abbrev pub phc : ℕ → List ℕ → List ℕ → String
phc version salt hash = dollar "" (
    dollar "argon2id" (
      dollar (version_field version) (
        dollar (params_field argon_memory argon_iterations argon_parallelism)
          (dollar (encode salt) (encode hash)))))

abbrev pub hashed : ℕ → List ℕ → Option (List ℕ) → Option String
hashed version salt none = none
hashed version salt (some hash) = some (phc version salt hash)

abbrev pub with_salt : Argon → String → Option (List ℕ) → Option String
with_salt A password none = none
with_salt A password (some salt) =
    hashed A.version salt
      (A.id_key password salt argon_iterations argon_memory argon_parallelism argon_key_length)

-- The salt is what rand.Read gives, if it does. An error is none.
unfoldable pub hash_password : Argon → Option (List ℕ) → String → Option String
hash_password A salt password = if ltb (len password) 8 then none else with_salt A password salt

-- subtle.ConstantTimeCompare(…) == 1
abbrev pub bytes_eq : List ℕ → List ℕ → Bool
bytes_eq [] [] = true
bytes_eq [] (y ∷ ys) = false
bytes_eq (x ∷ xs) [] = false
bytes_eq (x ∷ xs) (y ∷ ys) = x == y && bytes_eq xs ys

-- The next value of a fmt.Sscanf, behind a literal.
abbrev pub then_uint : ℕ → String → Option (ℕ × String) → Option (ℕ × ℕ × String)
then_uint limit lit none = none
then_uint limit lit (some (n, s)) = elim (literal lit s) [
  | none ↦ none
  | some t ↦ elim (scan_uint limit t) [ none ↦ none | some (m, r) ↦ some (n, m, r) ]
]

abbrev pub first_uint : String → String → Option (ℕ × String)
first_uint lit s = elim (literal lit s) [ none ↦ none | some t ↦ scan_uint (2 ^ 32) t ]

-- m=%d,t=%d,p=%d
abbrev pub last_uint : Option (ℕ × ℕ × String) → Option (ℕ × ℕ × ℕ)
last_uint none = none
last_uint (some (m, t, s)) = elim (literal ",p=" s) [
  | none ↦ none
  | some r ↦ elim (scan_uint (2 ^ 8) r) [ none ↦ none | some (p, rest) ↦ some (m, t, p) ]
]

unfoldable pub scan_params : String → Option (ℕ × ℕ × ℕ)
scan_params s = last_uint (then_uint (2 ^ 32) ",t=" (first_uint "m=" s))

unfoldable pub scan_version : String → Option ℤ
scan_version s = elim (literal "v=" s) [
  | none ↦ none
  | some t ↦ elim (scan_int t) [ none ↦ none | some (v, rest) ↦ some v ]
]

abbrev pub same_hash : List ℕ → Option (List ℕ) → Option Bool
same_hash want none = none
same_hash want (some got) = some (bytes_eq want got)

abbrev pub verify_decoded :
    Argon → String → ℕ × ℕ × ℕ → Option (List ℕ) → Option (List ℕ) → Option Bool
verify_decoded A password (m, t, p) none want = none
verify_decoded A password (m, t, p) (some salt) none = none
verify_decoded A password (m, t, p) (some salt) (some want) =
    same_hash want (A.id_key password salt t m p (length want % 2 ^ 32))

abbrev pub verify_params : Argon → String → Option (ℕ × ℕ × ℕ) → String → String → Option Bool
verify_params A password none salt hash = none
verify_params A password (some params) salt hash =
    verify_decoded A password params (decode salt) (decode hash)

abbrev pub verify_version : Argon → String → Option ℤ → String → String → String → Option Bool
verify_version A password none params salt hash = none
verify_version A password (some v) params salt hash =
    if not (eq_ℤ v (pos A.version))
    then none
    else verify_params A password (scan_params params) salt hash

-- The six parts between the "$" signs.
abbrev pub verify_parts : Argon → String → List String → Option Bool
verify_parts A password (a ∷ name ∷ version ∷ params ∷ salt ∷ hash ∷ []) =
    if not (str_eq name "argon2id")
    then none
    else verify_version A password (scan_version version) params salt hash
verify_parts A password _ = none

-- An error, or a panic of argon2.IDKey, is none.
unfoldable pub verify_password : Argon → String → String → Option Bool
unfolding scan_params scan_version
verify_password A password encoded = verify_parts A password (split 36 encoded)
