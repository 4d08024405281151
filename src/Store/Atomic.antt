-- ===== src/Store/Atomic.antt =====
-- Calls that change nothing, and calls that change nothing when they fail.
use ficct_boutique_backend_g.Base.{
  ◌≡◌, ◌∙◌, refl, sym, ap, subst, Option, none, some, Bool, true, false,
}
use ficct_boutique_backend_g.Store.{
  Db, Error, Outcome, ok, err, Tx, Env, ◌>>=◌, fail_if, or_fail, wrap, in_transaction, after, IsOk,
}
use ficct_boutique_backend_g.Store.Laws.{in_transaction-after}

abbrev pub IsReadOnly : {A : Type 0} → Tx A → Type 0
IsReadOnly m = (db : Db) → after (m db) ≡ db

abbrev pub IsAtomic : {A : Type 0} → Tx A → Type 0
IsAtomic m = (db : Db) → ¬ IsOk (m db) → after (m db) ≡ db

module _ {A : Type 0} where
  pub IsReadOnly-IsAtomic : (m : Tx A) → IsReadOnly m → IsAtomic m
  IsReadOnly-IsAtomic m r db _ = r db

  pub in_transaction-IsAtomic :
      (env : Env) (m : Tx A) → env.lost ≡ false → IsAtomic (in_transaction env m)
  in_transaction-IsAtomic env m kept db failed = in_transaction-after env m db kept failed

  pub or_fail-IsReadOnly : (e : Error) (f : Db → Option A) → IsReadOnly (λ db. or_fail e (f db) db)
  or_fail-IsReadOnly e f db = go (f db)
    where
      go : (o : Option A) → after (or_fail e o db) ≡ db
      go none = refl
      go (some a) = refl

  pub wrap-IsReadOnly : (f : Error → Error) (m : Tx A) → IsReadOnly m → IsReadOnly (wrap f m)
  wrap-IsReadOnly f m r db = go (m db) ∙ r db
    where
      go :
          (o : Outcome A)
          → after {A = A} (elim o [ ok a d ↦ ok a d | err e d ↦ err (f e) d ]) ≡ after o
      go (ok a w) = refl
      go (err e w) = refl

pub fail_if-IsReadOnly : (b : Bool) (e : Error) → IsReadOnly (fail_if b e)
fail_if-IsReadOnly true e db = refl
fail_if-IsReadOnly false e db = refl

module _ {A B : Type 0} where
  pub >>=-IsReadOnly :
      (m : Tx A) (f : A → Tx B) → IsReadOnly m → ((a : A) → IsReadOnly (f a)) → IsReadOnly (m >>= f)
  >>=-IsReadOnly m f r s db = go (m db) (r db)
    where
      go :
          (o : Outcome A)
          → after o ≡ db
          → after {A = B} (elim o [ ok a w ↦ f a w | err e w ↦ err e w ]) ≡ db
      go (ok a w) same = s a w ∙ same
      go (err e w) same = same

  -- Reads before a call that is atomic.
  pub >>=-IsAtomic :
      (m : Tx A) (f : A → Tx B) → IsReadOnly m → ((a : A) → IsAtomic (f a)) → IsAtomic (m >>= f)
  >>=-IsAtomic m f r s db failed = go (m db) (r db) failed
    where
      go :
          (o : Outcome A)
          → after o ≡ db
          → ¬ IsOk {A = B} (elim o [ ok a w ↦ f a w | err e w ↦ err e w ])
          → after {A = B} (elim o [ ok a w ↦ f a w | err e w ↦ err e w ]) ≡ db
      go (ok a w) same bad = s a w bad ∙ same
      go (err e w) same bad = same

  -- An atomic call before steps that cannot fail.
  pub >>=-IsAtomic_last :
      (m : Tx A) (f : A → Tx B)
      → IsAtomic m
      → ((a : A) (db : Db) → IsOk (f a db))
      → IsAtomic (m >>= f)
  >>=-IsAtomic_last m f r s db failed = go (m db) refl failed
    where
      go :
          (o : Outcome A)
          → m db ≡ o
          → ¬ IsOk {A = B} (elim o [ ok a w ↦ f a w | err e w ↦ err e w ])
          → after {A = B} (elim o [ ok a w ↦ f a w | err e w ↦ err e w ]) ≡ db
      go (ok a w) e bad = absurd (bad (s a w))
      go (err x w) e bad = ap after (sym e) ∙ r db (λ good. subst (λ o. IsOk o) e good)
