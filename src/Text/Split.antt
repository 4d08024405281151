-- ===== src/Text/Split.antt =====
-- strings.Split and strings.SplitN with one character as separator, and strings.HasSuffix and
-- strings.TrimSuffix. A separator is given by its code point.
use Prim.Native.Char.{Char, code}
use Prim.Native.String.{◌++◌ as text_append}
use text.Mathlib.TextLemmas.{nil-append, cons-append}
use ficct_boutique_backend_g.Base.{
  ℕ, ◌≡◌, refl, ap, String, true, false, List, [], ◌∷◌, Option, none, some, ◌==◌, if◌then◌else◌,
  str_eq,
}

-- A character in front of the first piece; there always is one.
abbrev pub onto_first : Char → List String → List String
onto_first c [] = String.◌∷◌ c String.[] ∷ []
onto_first c (s ∷ rest) = String.◌∷◌ c s ∷ rest

unfoldable pub split : ℕ → String → List String
split sep String.[] = "" ∷ []
split sep (String.◌∷◌ c s) =
    let rest = split sep s in if code c == sep then "" ∷ rest else onto_first c rest

abbrev pub onto_pair : Char → String × Option String → String × Option String
onto_pair c (a, b) = (String.◌∷◌ c a, b)

-- strings.SplitN(s, sep, 2): the text before the first separator, and what follows it, if there is
-- one.
unfoldable pub split_two : ℕ → String → String × Option String
split_two sep String.[] = ("", none)
split_two sep (String.◌∷◌ c s) =
    let rest = split_two sep s in if code c == sep then ("", some s) else onto_pair c rest

-- The text without a suffix, if it ends with it.
unfoldable pub cut_suffix : String → String → Option String
cut_suffix suffix String.[] = if str_eq String.[] suffix then some "" else none
cut_suffix suffix (String.◌∷◌ c s) =
    let rest = cut_suffix suffix s in
    if str_eq (String.◌∷◌ c s) suffix
    then some ""
    else elim rest [ none ↦ none | some t ↦ some (String.◌∷◌ c t) ]

split_fields : split 44 "a,,b" ≡ "a" ∷ "" ∷ "b" ∷ []
unfolding split
split_fields = refl

split_two_fields : split_two 95 "0001_init_x" ≡ ("0001", some "init_x")
unfolding split_two
split_two_fields = refl

cut : cut_suffix ".up.sql" "0001_init.up.sql" ≡ some "0001_init"
unfolding cut_suffix
cut = refl

-- The separator does not occur in a text.
abbrev pub IsFreeOf : ℕ → String → Type 0
IsFreeOf sep String.[] = Unit
IsFreeOf sep (String.◌∷◌ c s) = ((code c == sep) ≡ false) × IsFreeOf sep s

-- A text without the separator is one piece.
pub split-free : (sep : ℕ) (s : String) → IsFreeOf sep s → split sep s ≡ s ∷ []
unfolding split
split-free sep String.[] h = refl
split-free sep (String.◌∷◌ c s) h = rw h.0 (ap (onto_first c) (split-free sep s h.1))

-- A piece, the separator and the rest are split at the separator.
pub split-append :
    (sep : ℕ) (s : String) (c : Char) (t : String)
    → IsFreeOf sep s
    → (code c == sep) ≡ true
    → split sep (text_append s (String.◌∷◌ c t)) ≡ s ∷ split sep t
unfolding split
split-append sep String.[] c t h e = rw (nil-append (String.◌∷◌ c t)) (rw e refl)
split-append sep (String.◌∷◌ d s) c t h e =
    rw (cons-append d s (String.◌∷◌ c t))
      (rw h.0 (ap (onto_first d) (split-append sep s c t h.1 e)))

pub split_two-append :
    (sep : ℕ) (s : String) (c : Char) (t : String)
    → IsFreeOf sep s
    → (code c == sep) ≡ true
    → split_two sep (text_append s (String.◌∷◌ c t)) ≡ (s, some t)
unfolding split_two
split_two-append sep String.[] c t h e = rw (nil-append (String.◌∷◌ c t)) (rw e refl)
split_two-append sep (String.◌∷◌ d s) c t h e =
    rw (cons-append d s (String.◌∷◌ c t))
      (rw h.0 (ap (onto_pair d) (split_two-append sep s c t h.1 e)))
