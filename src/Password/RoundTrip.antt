-- ===== src/Password/RoundTrip.antt =====
-- What internal/auth/password.go hashes, it verifies.
use Prim.Native.String.{◌++◌ as text_append, len}
use text.Mathlib.TextLemmas.{cons-append, nil-append}
use ficct_boutique_backend_g.Base.{
  ℕ, ◌^◌, ◌%◌, ◌≡◌, ◌∙◌, refl, sym, ap, subst, String, true, false, not, Option, none, some, List,
  [], ◌∷◌, ltb, length, if◌then◌else◌, All, ==_refl,
}
use ficct_boutique_backend_g.Base.Int.{ℤ, pos, eq_ℤ_iff}
use ficct_boutique_backend_g.Text.Split.{split, split-append, split-free, IsFreeOf}
use ficct_boutique_backend_g.Text.Base64.{encode, decode, decode-encode, encode-free, IsByte}
use ficct_boutique_backend_g.Text.Scan.{
  decimal, literal, scan_int, scan_uint, scan_int-decimal, decimal-free,
}
use ficct_boutique_backend_g.Password.{
  Argon, argon_memory, argon_iterations, argon_parallelism, argon_key_length, version_field,
  params_field, phc, hashed, with_salt, dollar, hash_password, bytes_eq, scan_params, scan_version,
  same_hash, verify_decoded, verify_params, verify_version, verify_parts, verify_password,
}

split-dollar : (a b : String) → IsFreeOf 36 a → split 36 (dollar a b) ≡ a ∷ split 36 b
split-dollar a b h =
    ap (λ t. split 36 (text_append a t)) dollar_text ∙ split-append 36 a "$" b h refl
  where
    dollar_text : text_append "$" b ≡ String.◌∷◌ "$" b
    dollar_text = cons-append "$" String.[] b ∙ ap (String.◌∷◌ "$") (nil-append b)

params_free : IsFreeOf 36 (params_field argon_memory argon_iterations argon_parallelism)
unfolding decimal
params_free = (
  refl,
  (
    refl,
    (
      refl,
      (
        refl,
        (refl, (refl, (refl, (refl, (refl, (refl, (refl, (refl, (refl, (refl, (refl, tt))))))))))),
      ),
    ),
  ),
)

params_scanned :
    scan_params (params_field argon_memory argon_iterations argon_parallelism)
    ≡ some (argon_memory, argon_iterations, argon_parallelism)
unfolding scan_params decimal literal scan_uint
params_scanned = refl

two_chars : (s : String) → text_append "v=" s ≡ String.◌∷◌ "v" (String.◌∷◌ "=" s)
two_chars s =
    cons-append "v" "=" s
    ∙ ap (String.◌∷◌ "v") (cons-append "=" String.[] s ∙ ap (String.◌∷◌ "=") (nil-append s))

version_free : (v : ℕ) → IsFreeOf 36 (version_field v)
version_free v = subst (IsFreeOf 36) (sym (two_chars (decimal v))) (refl, (refl, decimal-free v))

version_scanned : (v : ℕ) → ltb v (2 ^ 63) ≡ true → scan_version (version_field v) ≡ some (pos v)
unfolding scan_version literal
version_scanned v h =
    ap scan_v (ap (literal "v=") (two_chars (decimal v)))
    ∙ ap (λ o. elim o [ none ↦ none | some (x, rest) ↦ some x ]) (scan_int-decimal v h)
  where
    scan_v : Option String → Option ℤ
    scan_v none = none
    scan_v (some t) = elim (scan_int t) [ none ↦ none | some (x, rest) ↦ some x ]

-- The six parts of a hash.
split-phc :
    (version : ℕ) (salt hash : List ℕ)
    → All IsByte salt
    → All IsByte hash
    → split 36 (phc version salt hash)
      ≡ ""
        ∷ "argon2id"
        ∷ version_field version
        ∷ params_field argon_memory argon_iterations argon_parallelism
        ∷ encode salt
        ∷ encode hash
        ∷ []
split-phc version salt hash hs hh =
    let last = split-dollar (encode salt) (encode hash) (encode-free salt hs) in
    let hash_part = ap (λ r. encode salt ∷ r) (split-free 36 (encode hash) (encode-free hash hh)) in
    split-dollar "" _ tt
    ∙ ap (λ r. "" ∷ r)
        (split-dollar "argon2id" _
            (refl, (refl, (refl, (refl, (refl, (refl, (refl, (refl, tt))))))))
          ∙ ap (λ r. "argon2id" ∷ r)
              (split-dollar (version_field version) _ (version_free version)
                ∙ ap (λ r. version_field version ∷ r)
                    (split-dollar (params_field argon_memory argon_iterations argon_parallelism) _
                        params_free
                      ∙ ap (λ r. params_field argon_memory argon_iterations argon_parallelism ∷ r)
                          (last ∙ hash_part))))

bytes_eq_self : (xs : List ℕ) → bytes_eq xs xs ≡ true
bytes_eq_self [] = refl
bytes_eq_self (x ∷ xs) = rw (==_refl x) (bytes_eq_self xs)

module _ (A : Argon) where
  -- The key of a password, with the parameters that the program hashes with.
  abbrev pub key : String → List ℕ → Option (List ℕ)
  key password salt =
      A.id_key password salt argon_iterations argon_memory argon_parallelism argon_key_length

  -- The documented results of argon2.IDKey on those parameters: a key of the length that was asked
  -- for, of bytes.
  pub record IsArgon : Type 0 where
    pub small_version : ltb A.version (2 ^ 63) ≡ true
    pub keys :
        (password : String) (salt : List ℕ)
        → (k : List ℕ) × (key password salt ≡ some k) × All IsByte k × (length k ≡ argon_key_length)

  verify-phc :
      (laws : IsArgon) (password : String) (salt hash : List ℕ)
      → All IsByte salt
      → All IsByte hash
      → length hash ≡ argon_key_length
      → verify_password A password (phc A.version salt hash) ≡ same_hash hash (key password salt)
  unfolding verify_password
  verify-phc laws password salt hash hs hh long =
      let params = params_field argon_memory argon_iterations argon_parallelism in
      ap (verify_parts A password) (split-phc A.version salt hash hs hh)
      ∙ (ap (λ o. verify_version A password o params (encode salt) (encode hash))
            (version_scanned A.version laws.small_version)
          ∙ (ap
                (λ b.
                  if not b
                  then none
                  else verify_params A password (scan_params params) (encode salt) (encode hash))
                ((eq_ℤ_iff (pos A.version) (pos A.version)).1 refl)
              ∙ (ap (λ o. verify_params A password o (encode salt) (encode hash)) params_scanned
                  ∙ (ap
                        (λ o.
                          verify_decoded A password
                            (argon_memory, argon_iterations, argon_parallelism) o
                            (decode (encode hash)))
                        (decode-encode salt hs)
                      ∙ (ap
                            (λ o.
                              verify_decoded A password
                                (argon_memory, argon_iterations, argon_parallelism) (some salt) o)
                            (decode-encode hash hh)
                          ∙ ap
                              (λ n. same_hash hash (
                                A.id_key password salt argon_iterations argon_memory
                                  argon_parallelism (n % 2 ^ 32)))
                              long)))))

  -- A password of at least eight bytes is hashed, and what is hashed is verified: of any
  -- password, the verification of the hash says whether its key for the salt is that of the password
  -- that was hashed. It accepts that password itself.
  pub verify-hash_password :
      (laws : IsArgon) (password other : String) (salt : List ℕ)
      → All IsByte salt
      → ltb (len password) 8 ≡ false
      → (encoded : String) × (k k' : List ℕ) × (hash_password A (some salt) password ≡ some encoded)
        × (key password salt ≡ some k)
        × (key other salt ≡ some k')
        × (verify_password A other encoded ≡ some (bytes_eq k k'))
        × (verify_password A password encoded ≡ some true)
  unfolding hash_password
  verify-hash_password laws password other salt hs long =
      let (k, made, bytes, wide) = laws.keys password salt in
      let (k', made', _, _) = laws.keys other salt in
      (
        phc A.version salt k,
        k,
        k',
        ap (λ b. if b then none else with_salt A password (some salt)) long
            ∙ ap (hashed A.version salt) made,
        made,
        made',
        verify-phc laws other salt k hs bytes wide ∙ ap (same_hash k) made',
        verify-phc laws password salt k hs bytes wide
            ∙ (ap (same_hash k) made ∙ ap some (bytes_eq_self k)),
      )
