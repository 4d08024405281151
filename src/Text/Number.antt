-- ===== src/Text/Number.antt =====
-- strconv.ParseInt(s, 10, 64) and strconv.Atoi, on an int of 64 bits: an optional sign and decimal
-- digits, in range.
use Prim.Native.Char.{code}
use ficct_boutique_backend_g.Base.{
  ℕ, zero, suc, ◌+◌, ◌-◌, ◌*◌, ◌^◌, ◌≡◌, refl, String, Bool, true, false, ◌&&◌, Option, none, some,
  leb, ltb, ◌==◌, if◌then◌else◌,
}
use ficct_boutique_backend_g.Base.Int.{ℤ, pos, negsuc}

abbrev pub is_digit : ℕ → Bool
is_digit c = leb 48 c && leb c 57

-- The digits, read from the left; none where another character stands among them.
abbrev pub digits_from : ℕ → String → Option ℕ
digits_from acc String.[] = some acc
digits_from acc (String.◌∷◌ c s) =
    let rest = digits_from (acc * 10 + (code c - 48)) s in if is_digit (code c) then rest else none

-- At least one digit.
abbrev pub digits : String → Option ℕ
digits String.[] = none
digits (String.◌∷◌ c s) = digits_from 0 (String.◌∷◌ c s)

abbrev pub in_range : Bool → Option ℕ → Option ℤ
in_range negative none = none
in_range true (some zero) = some (pos 0)
in_range true (some (suc n)) = if ltb n (2 ^ 63) then some (negsuc n) else none
in_range false (some n) = if ltb n (2 ^ 63) then some (pos n) else none

unfoldable pub parse_int64 : String → Option ℤ
parse_int64 String.[] = none
parse_int64 (String.◌∷◌ c s) =
    if code c == 45
    then in_range true (digits s)
    else if code c == 43
    then in_range false (digits s)
    else in_range false (digits (String.◌∷◌ c s))

abbrev pub atoi : String → Option ℤ
atoi = parse_int64

parses : parse_int64 "0012" ≡ some (pos 12)
unfolding parse_int64
parses = refl

parses_negative : parse_int64 "-3" ≡ some (negsuc 2)
unfolding parse_int64
parses_negative = refl

refuses : parse_int64 "12x" ≡ none
unfolding parse_int64
refuses = refl

overflows : parse_int64 "9223372036854775808" ≡ none
unfolding parse_int64
overflows = refl
