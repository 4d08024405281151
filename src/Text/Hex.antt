-- ===== src/Text/Hex.antt =====
-- hex.EncodeToString, and that it tells bytes apart.
use Prim.Native.Char.{Char, code}
use ficct_boutique_backend_g.Base.{
  ℕ, ◌+◌, ◌*◌, ◌/◌, ◌%◌, ◌<◌, ◌≡◌, ◌≢◌, ◌∙◌, refl, sym, ap, String, Bool, true, false, Option, none,
  some, List, [], ◌∷◌, All, arith, ◌==◌, ==_iff, if◌then◌else◌,
}
use ficct_boutique_backend_g.Text.Base64.{char_from, position, IsByte, fails_under, fails_under-not}

abbrev hex_alphabet : String
hex_alphabet = "0123456789abcdef"

hex_digit : ℕ → Char
hex_digit n = char_from n hex_alphabet

unfoldable pub hex_encode : List ℕ → String
unfolding hex_digit
hex_encode [] = String.[]
hex_encode (b ∷ bytes) =
    String.◌∷◌ (hex_digit (b / 16)) (String.◌∷◌ (hex_digit (b % 16)) (hex_encode bytes))

abbrev value_of : Option ℕ → ℕ
value_of none = 0
value_of (some n) = n

abbrev hex_value : Char → ℕ
hex_value c = value_of (position (code c) 0 hex_alphabet)

abbrev hex_decode : String → List ℕ
hex_decode String.[] = []
hex_decode (String.◌∷◌ c String.[]) = []
hex_decode (String.◌∷◌ c (String.◌∷◌ d s)) = (hex_value c * 16 + hex_value d) ∷ hex_decode s

-- A digit is read as its number, and is not the letter "s".
abbrev is_read : ℕ → Bool
is_read n = hex_value (hex_digit n) == n

abbrev is_no_s : ℕ → Bool
is_no_s n = if code (hex_digit n) == 115 then false else true

all_read : fails_under is_read 16 ≡ false
unfolding fails_under hex_digit char_from position
all_read = refl

none_is_s : fails_under is_no_s 16 ≡ false
unfolding fails_under hex_digit char_from
none_is_s = refl

hex_value-digit : (n : ℕ) → n < 16 → hex_value (hex_digit n) ≡ n
hex_value-digit n h =
    (==_iff (hex_value (hex_digit n)) n).0 (fails_under-not is_read 16 n h all_read)

hex_decode-encode : (bytes : List ℕ) → All IsByte bytes → hex_decode (hex_encode bytes) ≡ bytes
unfolding hex_encode
hex_decode-encode [] h = refl
hex_decode-encode (b ∷ bytes) h =
    let high = hex_value-digit (b / 16) (omega (arith, h.0)) in
    let low = hex_value-digit (b % 16) (omega arith) in
    rw (high, low)
      (ap (λ l. (b / 16 * 16 + b % 16) ∷ l) (hex_decode-encode bytes h.1)
        ∙ ap (λ n. n ∷ bytes) (omega arith))

pub hex_encode-injective :
    (xs ys : List ℕ) → All IsByte xs → All IsByte ys → hex_encode xs ≡ hex_encode ys → xs ≡ ys
hex_encode-injective xs ys hx hy same =
    sym (hex_decode-encode xs hx) ∙ (ap hex_decode same ∙ hex_decode-encode ys hy)

-- The code of the first character, if there is one.
abbrev first_code : String → Option ℕ
first_code String.[] = none
first_code (String.◌∷◌ c s) = some (code c)

-- No text of digits begins with an "s".
pub hex_encode-s :
    (bytes : List ℕ) (rest : String) → All IsByte bytes → hex_encode bytes ≢ String.◌∷◌ "s" rest
unfolding hex_encode
hex_encode-s [] rest h same = absurd (impossible (ap first_code same))
  where
    an_s : ℕ
    an_s = 115

    impossible : none ≡ some an_s → ⊥
    impossible e = cc
hex_encode-s (b ∷ bytes) rest h same =
    absurd (impossible (fails_under-not is_no_s 16 (b / 16) (omega (arith, h.0)) none_is_s) is_s)
  where
    is_s : code (hex_digit (b / 16)) ≡ 115
    is_s = code_of (ap first_code same)
      where
        code_of : {n m : ℕ} → some n ≡ some m → n ≡ m
        code_of e = cc

    impossible : is_no_s (b / 16) ≡ true → code (hex_digit (b / 16)) ≡ 115 → ⊥
    impossible no_s e = ground arith
