-- ===== src/Text/Base64.antt =====
-- base64.RawStdEncoding: three bytes are four characters, and there is no padding. The decoder skips
-- line breaks and does not look at the bits that the last character has to spare.
use Prim.Native.Char.{Char, code, nul}
use ficct_boutique_backend_g.Base.{
  ℕ, zero, suc, ◌+◌, ◌*◌, ◌/◌, ◌%◌, ◌<◌, ◌≡◌, ◌∙◌, refl, ap, sym, String, Bool, true, false, ◌&&◌,
  ◌||◌, not, List, [], ◌∷◌, Option, none, some, ◌==◌, ==_iff, if◌then◌else◌, arith, All, subst,
  Bool-cases, inl, inr,
}
use ficct_boutique_backend_g.Text.Split.{IsFreeOf}

abbrev pub alphabet : String
alphabet = "ABCDEFGHIJKLMNOPQRSTUVWXYZabcdefghijklmnopqrstuvwxyz0123456789+/"

-- The character at a position of a text.
unfoldable pub char_from : ℕ → String → Char
char_from n String.[] = nul
char_from zero (String.◌∷◌ c s) = c
char_from (suc n) (String.◌∷◌ c s) = char_from n s

-- The position of a character, counted from `n`.
unfoldable pub position : ℕ → ℕ → String → Option ℕ
position c n String.[] = none
position c n (String.◌∷◌ d s) =
    let rest = position c (suc n) s in if code d == c then some n else rest

unfoldable pub letter : ℕ → Char
unfolding char_from
letter n = char_from n alphabet

unfoldable pub encode : List ℕ → String
encode [] = String.[]
encode (a ∷ []) = String.◌∷◌ (letter (a / 4)) (String.◌∷◌ (letter (a % 4 * 16)) String.[])
encode (a ∷ b ∷ []) =
    String.◌∷◌ (letter (a / 4))
      (String.◌∷◌ (letter (a % 4 * 16 + b / 16)) (String.◌∷◌ (letter (b % 16 * 4)) String.[]))
encode (a ∷ b ∷ c ∷ rest) = String.◌∷◌ (letter (a / 4)) (
    String.◌∷◌ (letter (a % 4 * 16 + b / 16))
      (String.◌∷◌ (letter (b % 16 * 4 + c / 64)) (String.◌∷◌ (letter (c % 64)) (encode rest))))

abbrev pub is_line_break : ℕ → Bool
is_line_break c = c == 10 || c == 13

abbrev pub cons_both : Option ℕ → Option (List ℕ) → Option (List ℕ)
cons_both none xs = none
cons_both (some x) none = none
cons_both (some x) (some xs) = some (x ∷ xs)

-- The six bits of each character.
unfoldable pub sextets : String → Option (List ℕ)
unfolding position
sextets String.[] = some []
sextets (String.◌∷◌ c s) =
    let rest = sextets s in
    if is_line_break (code c) then rest else cons_both (position (code c) 0 alphabet) rest

abbrev pub cons_bytes : ℕ → ℕ → ℕ → Option (List ℕ) → Option (List ℕ)
cons_bytes a b c none = none
cons_bytes a b c (some rest) = some (a ∷ b ∷ c ∷ rest)

unfoldable pub bytes_of : List ℕ → Option (List ℕ)
bytes_of [] = some []
bytes_of (x ∷ []) = none
bytes_of (x ∷ y ∷ []) = some ((x * 4 + y / 16) ∷ [])
bytes_of (x ∷ y ∷ z ∷ []) = some ((x * 4 + y / 16) ∷ (y % 16 * 16 + z / 4) ∷ [])
bytes_of (x ∷ y ∷ z ∷ w ∷ rest) =
    cons_bytes (x * 4 + y / 16) (y % 16 * 16 + z / 4) (z % 4 * 64 + w) (bytes_of rest)

abbrev pub bytes_or_none : Option (List ℕ) → Option (List ℕ)
bytes_or_none none = none
bytes_or_none (some xs) = bytes_of xs

unfoldable pub decode : String → Option (List ℕ)
decode s = bytes_or_none (sextets s)

encodes : encode (102 ∷ 111 ∷ 111 ∷ 98 ∷ []) ≡ "Zm9vYg"
unfolding encode letter
encodes = refl

decodes : decode "Zm9vYg" ≡ some (102 ∷ 111 ∷ 111 ∷ 98 ∷ [])
unfolding decode sextets bytes_of
decodes = refl

abbrev pub IsByte : ℕ → Type 0
IsByte n = n < 256

-- Some number under the limit does not pass the test.
unfoldable pub fails_under : (ℕ → Bool) → ℕ → Bool
fails_under test zero = false
fails_under test (suc limit) = if test limit then fails_under test limit else true

pub fails_under-not :
    (test : ℕ → Bool) (limit i : ℕ) → i < limit → fails_under test limit ≡ false → test i ≡ true
unfolding fails_under
fails_under-not test zero i small fine = absurd (omega arith)
fails_under-not test (suc limit) i small fine = elim (Bool-cases (i == limit)) [
  | inl last ↦ ground arith
  | inr earlier ↦ fails_under-not test limit i (ground arith) (ground arith)
]

abbrev is_at : ℕ → Option ℕ → Bool
is_at n none = false
is_at n (some m) = m == n

-- A letter of the alphabet is read as its number, is no line break and no "$".
abbrev is_good : ℕ → Bool
is_good n =
    is_at n (position (code (letter n)) 0 alphabet)
    && (not (is_line_break (code (letter n))) && not (code (letter n) == 36))

letters : fails_under is_good 64 ≡ false
unfolding fails_under letter position
letters = refl

is_at-eq : (n : ℕ) (o : Option ℕ) → is_at n o ≡ true → o ≡ some n
is_at-eq n none h = absurd (cc)
is_at-eq n (some m) h = ap some ((==_iff m n).0 h)

three_tests :
    (a b c : Bool) → (a && (not b && not c)) ≡ true → (a ≡ true) × (b ≡ false) × (c ≡ false)
three_tests a b c h = (ground arith, ground arith, ground arith)

letter_lem :
    (n : ℕ)
    → n < 64
    → (position (code (letter n)) 0 alphabet ≡ some n)
      × (is_line_break (code (letter n)) ≡ false)
      × ((code (letter n) == 36) ≡ false)
letter_lem n h =
    let (found, break_free, dollar_free) =
      three_tests (is_at n (position (code (letter n)) 0 alphabet))
        (is_line_break (code (letter n))) (code (letter n) == 36)
        (fails_under-not is_good 64 n h letters) in
    (is_at-eq n (position (code (letter n)) 0 alphabet) found, break_free, dollar_free)

abbrev spelled : List ℕ → String
spelled [] = String.[]
spelled (x ∷ xs) = String.◌∷◌ (letter x) (spelled xs)

-- The groups of six bits of some bytes.
abbrev groups : List ℕ → List ℕ
groups [] = []
groups (a ∷ []) = (a / 4) ∷ (a % 4 * 16) ∷ []
groups (a ∷ b ∷ []) = (a / 4) ∷ (a % 4 * 16 + b / 16) ∷ (b % 16 * 4) ∷ []
groups (a ∷ b ∷ c ∷ rest) =
    (a / 4) ∷ (a % 4 * 16 + b / 16) ∷ (b % 16 * 4 + c / 64) ∷ (c % 64) ∷ groups rest

encode-spelled : (bs : List ℕ) → encode bs ≡ spelled (groups bs)
unfolding encode
encode-spelled [] = refl
encode-spelled (a ∷ []) = refl
encode-spelled (a ∷ b ∷ []) = refl
encode-spelled (a ∷ b ∷ c ∷ rest) = rw (encode-spelled rest) refl

abbrev IsSextet : ℕ → Type 0
IsSextet n = n < 64

groups-All : (bs : List ℕ) → All IsByte bs → All IsSextet (groups bs)
groups-All [] h = tt
groups-All (a ∷ []) h = omega arith
groups-All (a ∷ b ∷ []) h = omega arith
groups-All (a ∷ b ∷ c ∷ rest) (ha, (hb, (hc, h))) =
    (omega arith, (omega arith, (omega arith, (omega arith, groups-All rest h))))

bytes_of-groups : (bs : List ℕ) → All IsByte bs → bytes_of (groups bs) ≡ some bs
unfolding bytes_of
bytes_of-groups [] h = refl
bytes_of-groups (a ∷ []) h = ground arith
bytes_of-groups (a ∷ b ∷ []) h = ground arith
bytes_of-groups (a ∷ b ∷ c ∷ rest) (ha, (hb, (hc, h))) = rw (bytes_of-groups rest h) (ground arith)

sextets-spelled : (xs : List ℕ) → All IsSextet xs → sextets (spelled xs) ≡ some xs
unfolding sextets
sextets-spelled [] h = refl
sextets-spelled (x ∷ xs) h =
    let (found, break_free, _) = letter_lem x h.0 in
    rw break_free (rw found (rw (sextets-spelled xs h.1) refl))

spelled-free : (xs : List ℕ) → All IsSextet xs → IsFreeOf 36 (spelled xs)
spelled-free [] h = tt
spelled-free (x ∷ xs) h = ((letter_lem x h.0).2, spelled-free xs h.1)

-- What is encoded is decoded to the same bytes.
pub decode-encode : (bs : List ℕ) → All IsByte bs → decode (encode bs) ≡ some bs
unfolding decode
decode-encode bs h =
    ap (λ s. bytes_or_none (sextets s)) (encode-spelled bs)
    ∙ (ap bytes_or_none (sextets-spelled (groups bs) (groups-All bs h)) ∙ bytes_of-groups bs h)

-- No "$" stands in an encoded text.
pub encode-free : (bs : List ℕ) → All IsByte bs → IsFreeOf 36 (encode bs)
encode-free bs h =
    subst (IsFreeOf 36) (sym (encode-spelled bs)) (spelled-free (groups bs) (groups-All bs h))
