-- ===== src/Base/Result.antt =====
-- A pair (value, err) of Go, outside of the database.
use ficct_boutique_backend_g.Base.{◌≡◌, Option, none, some}

pub data Result (E A : Type 0) : Type 0 where
  good : A → Result E A
  bad : E → Result E A

infixl 5 ◌>>=◌
abbrev pub ◌>>=◌ : {E A B : Type 0} → Result E A → (A → Result E B) → Result E B
good a >>= f = f a
bad e >>= f = bad e

abbrev pub or_bad : {E A : Type 0} → E → Option A → Result E A
or_bad e none = bad e
or_bad e (some a) = good a

pub >>=-good :
    {E A B : Type 0} (m : Result E A) (f : A → Result E B) (b : B)
    → (m >>= f) ≡ good b
    → (a : A) × (f a ≡ good b)
>>=-good (good a) f b h = (a, h)
>>=-good (bad e) f b h = absurd (cc)

pub good-injective : {E A : Type 0} {a b : A} → ◌≡◌ {A = Result E A} (good a) (good b) → a ≡ b
good-injective h = cc
