-- ===== src/Text/Scan.antt =====
-- fmt.Sscanf with literal text and %d, and the decimal text that fmt.Sprintf("%d", …) makes of a
-- number.
use Prim.Native.Char.{Char, code}
use ficct_boutique_backend_g.Base.{
  ℕ, zero, suc, ◌+◌, ◌-◌, ◌*◌, ◌/◌, ◌%◌, ◌^◌, ◌≤◌, ◌<◌, ◌≡◌, ◌∙◌, refl, ap, String, Bool, true,
  false, ◌&&◌, not, Option, none, some, ◌==◌, ==_iff, ltb, if◌then◌else◌, arith, Bool-cases, inl,
  inr,
}
use ficct_boutique_backend_g.Base.Int.{ℤ, pos}
use ficct_boutique_backend_g.Text.{is_space}
use ficct_boutique_backend_g.Text.Base64.{char_from, fails_under, fails_under-not}
use ficct_boutique_backend_g.Text.Number.{is_digit, in_range}
use ficct_boutique_backend_g.Text.Split.{IsFreeOf}

unfoldable pub digit_char : ℕ → Char
unfolding char_from
digit_char d = char_from d "0123456789"

-- The digits of `i` in front of a text.
unfoldable pub decimal_loop : ℕ → ℕ → String → String
unfolding digit_char
decimal_loop zero i s = s
decimal_loop (suc fuel) i s =
    let rest = decimal_loop fuel (i / 10) (String.◌∷◌ (digit_char (i % 10)) s) in
    if i == 0 then s else rest

-- `i` rounds are enough, since each divides by ten.
unfoldable pub decimal : ℕ → String
unfolding decimal_loop
decimal i = if i == 0 then "0" else decimal_loop i i ""

-- The text after a literal that it must begin with.
unfoldable pub literal : String → String → Option String
literal String.[] s = some s
literal (String.◌∷◌ c l) String.[] = none
literal (String.◌∷◌ c l) (String.◌∷◌ d s) =
    let rest = literal l s in if code c == code d then rest else none

-- SkipSpace: a line break is no space here.
unfoldable pub skip_space : String → Option String
skip_space String.[] = some String.[]
skip_space (String.◌∷◌ c s) =
    let rest = skip_space s in
    if code c == 10 then none else if is_space (code c) then rest else some (String.◌∷◌ c s)

-- The longest row of digits, after a number that was read so far.
unfoldable pub read_digits : ℕ → String → ℕ × String
read_digits acc String.[] = (acc, String.[])
read_digits acc (String.◌∷◌ c s) =
    let rest = read_digits (acc * 10 + (code c - 48)) s in
    if is_digit (code c) then rest else (acc, String.◌∷◌ c s)

-- At least one digit.
abbrev pub some_digits : String → Option (ℕ × String)
some_digits String.[] = none
some_digits (String.◌∷◌ c s) =
    if is_digit (code c) then some (read_digits 0 (String.◌∷◌ c s)) else none

abbrev pub ranged : Bool → Option (ℕ × String) → Option (ℤ × String)
ranged negative none = none
ranged negative (some (n, s)) = elim (in_range negative (some n)) [
  | none ↦ none
  | some x ↦ some (x, s)
]

abbrev pub signed : Option String → Option (ℤ × String)
signed none = none
signed (some String.[]) = none
signed (some (String.◌∷◌ c s)) =
    if code c == 45
    then ranged true (some_digits s)
    else if code c == 43
    then ranged false (some_digits s)
    else ranged false (some_digits (String.◌∷◌ c s))

-- %d into an int.
unfoldable pub scan_int : String → Option (ℤ × String)
unfolding skip_space read_digits
scan_int s = signed (skip_space s)

abbrev pub below : ℕ → Option (ℕ × String) → Option (ℕ × String)
below limit none = none
below limit (some (n, s)) = if ltb n limit then some (n, s) else none

abbrev pub unsigned : ℕ → Option String → Option (ℕ × String)
unsigned limit none = none
unsigned limit (some s) = below limit (some_digits s)

-- %d into a uint32 or a uint8: no sign, and below 2^32 or 2^8.
unfoldable pub scan_uint : ℕ → String → Option (ℕ × String)
unfolding skip_space read_digits
scan_uint limit s = unsigned limit (skip_space s)

scans : scan_int "19xyz" ≡ some (pos 19, "xyz")
unfolding scan_int
scans = refl

prints : decimal 65536 ≡ "65536"
unfolding decimal
prints = refl

-- A digit is read as its number, and is no "$".
abbrev is_good : ℕ → Bool
is_good d =
    is_digit (code (digit_char d))
    && ((code (digit_char d) - 48 == d) && not (code (digit_char d) == 36))

digits_good : fails_under is_good 10 ≡ false
unfolding fails_under digit_char
digits_good = refl

three_tests : (a b c : Bool) → (a && (b && not c)) ≡ true → (a ≡ true) × (b ≡ true) × (c ≡ false)
three_tests a b c h = (ground arith, ground arith, ground arith)

digit_char_lem :
    (d : ℕ)
    → d < 10
    → (is_digit (code (digit_char d)) ≡ true)
      × ((code (digit_char d) - 48 == d) ≡ true)
      × ((code (digit_char d) == 36) ≡ false)
digit_char_lem d h = three_tests _ _ _ (fails_under-not is_good 10 d h digits_good)

last_digit : (i : ℕ) → i % 10 < 10
last_digit i = omega arith

read_digits-digit :
    (acc d : ℕ) (s : String)
    → d < 10
    → read_digits acc (String.◌∷◌ (digit_char d) s) ≡ read_digits (acc * 10 + d) s
unfolding read_digits
read_digits-digit acc d s h =
    let (is, value, _) = digit_char_lem d h in
    rw is (ap (λ k. read_digits (acc * 10 + k) s) ((==_iff (code (digit_char d) - 48) d).0 value))

-- The digits that the loop puts in front of a text are read as the number.
read_digits-loop :
    (fuel i : ℕ) (s : String) → i ≤ fuel → read_digits 0 (decimal_loop fuel i s) ≡ read_digits i s
unfolding decimal_loop
read_digits-loop zero i s h = ap (λ n. read_digits n s) (omega arith)
read_digits-loop (suc fuel) i s h = elim (Bool-cases (i == 0)) [
  | inl done ↦ rw done (ap (λ n. read_digits n s) (ground arith))
  | inr more ↦ rw more (
      read_digits-loop fuel (i / 10) (String.◌∷◌ (digit_char (i % 10)) s) (ground arith)
      ∙ (read_digits-digit (i / 10) (i % 10) s (last_digit i)
          ∙ ap (λ n. read_digits n s) (omega arith)))
]

abbrev begins_with_digit : String → Bool
begins_with_digit String.[] = false
begins_with_digit (String.◌∷◌ c s) = is_digit (code c)

loop_begins :
    (fuel i : ℕ) (s : String)
    → begins_with_digit s ≡ true
    → begins_with_digit (decimal_loop fuel i s) ≡ true
unfolding decimal_loop
loop_begins zero i s h = h
loop_begins (suc fuel) i s h = elim (Bool-cases (i == 0)) [
  | inl done ↦ rw done h
  | inr more ↦ rw more (
      loop_begins fuel (i / 10) (String.◌∷◌ (digit_char (i % 10)) s)
        (digit_char_lem (i % 10) (last_digit i)).0)
]

decimal_begins : (i : ℕ) → begins_with_digit (decimal i) ≡ true
unfolding decimal
decimal_begins zero = refl
decimal_begins (suc n) =
    let more : (suc n == 0) ≡ false = ground arith in
    let (is, _, _) = digit_char_lem (suc n % 10) (last_digit (suc n)) in
    rw more (loop_begins n (suc n / 10) (String.◌∷◌ (digit_char (suc n % 10)) "") is)

read_digits-decimal : (i : ℕ) → read_digits 0 (decimal i) ≡ (i, "")
unfolding decimal read_digits
read_digits-decimal i = elim (Bool-cases (i == 0)) [
  | inl nought ↦ rw nought (ap (λ (n : ℕ). (n, "")) (ground arith))
  | inr more ↦ rw more (read_digits-loop i i "" (omega arith))
]

digit_is_plain :
    (c : ℕ)
    → is_digit c ≡ true
    → ((c == 10) ≡ false) × (is_space c ≡ false) × ((c == 45) ≡ false) × ((c == 43) ≡ false)
digit_is_plain c h = (ground arith, ground arith, ground arith, ground arith)

skip_space-digit :
    (c : Char) (s : String)
    → is_digit (code c) ≡ true
    → skip_space (String.◌∷◌ c s) ≡ some (String.◌∷◌ c s)
unfolding skip_space
skip_space-digit c s h =
    let (no_break, no_space, _, _) = digit_is_plain (code c) h in rw no_break (rw no_space refl)

signed-digit :
    (c : Char) (s : String)
    → is_digit (code c) ≡ true
    → signed (some (String.◌∷◌ c s)) ≡ ranged false (some (read_digits 0 (String.◌∷◌ c s)))
signed-digit c s h =
    let (_, _, no_minus, no_plus) = digit_is_plain (code c) h in
    ap (λ b. if b then ranged true (some_digits s) else without_minus) no_minus
    ∙ (ap (λ b. if b then ranged false (some_digits s) else unsigned_text) no_plus
        ∙ ap (λ b. ranged false (if b then some (read_digits 0 (String.◌∷◌ c s)) else none)) h)
  where
    unsigned_text : Option (ℤ × String)
    unsigned_text = ranged false (some_digits (String.◌∷◌ c s))

    without_minus : Option (ℤ × String)
    without_minus = if code c == 43 then ranged false (some_digits s) else unsigned_text

ranged-below :
    (n : ℕ) (s : String) → ltb n (2 ^ 63) ≡ true → ranged false (some (n, s)) ≡ some (pos n, s)
ranged-below n s h =
    ap (λ b. elim (if b then some (pos n) else none) [ none ↦ none | some x ↦ some (x, s) ]) h

-- A text that begins with a digit needs no skipping and has no sign.
scan_int-digits :
    (s : String) → begins_with_digit s ≡ true → scan_int s ≡ ranged false (some (read_digits 0 s))
unfolding scan_int
scan_int-digits String.[] h = absurd (cc)
scan_int-digits (String.◌∷◌ c s) h = ap signed (skip_space-digit c s h) ∙ signed-digit c s h

-- A number below 2^63 is scanned from its decimal text, to the end.
pub scan_int-decimal : (i : ℕ) → ltb i (2 ^ 63) ≡ true → scan_int (decimal i) ≡ some (pos i, "")
scan_int-decimal i h =
    scan_int-digits (decimal i) (decimal_begins i)
    ∙ (ap (λ p. ranged false (some p)) (read_digits-decimal i) ∙ ranged-below i "" h)

loop_free : (fuel i : ℕ) (s : String) → IsFreeOf 36 s → IsFreeOf 36 (decimal_loop fuel i s)
unfolding decimal_loop
loop_free zero i s h = h
loop_free (suc fuel) i s h = elim (Bool-cases (i == 0)) [
  | inl done ↦ rw done h
  | inr more ↦ rw more (
      loop_free fuel (i / 10) (String.◌∷◌ (digit_char (i % 10)) s)
        ((digit_char_lem (i % 10) (last_digit i)).2, h))
]

-- No "$" stands in a decimal text.
pub decimal-free : (i : ℕ) → IsFreeOf 36 (decimal i)
unfolding decimal
decimal-free i = elim (Bool-cases (i == 0)) [
  | inl nought ↦ rw nought (refl, tt)
  | inr some_digit ↦ rw some_digit (loop_free i i "" tt)
]
