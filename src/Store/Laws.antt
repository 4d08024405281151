-- ===== src/Store/Laws.antt =====
-- Inversion of chains of calls and of transactions.
use ficct_boutique_backend_g.Base.{
  ◌≡◌, refl, ap, ◌∙◌, true, false, Bool, Option, none, some, arith, if◌then◌else◌, ◌⊎◌, inl, inr,
}
use ficct_boutique_backend_g.Store.{
  Db, Error, Outcome, ok, err, Tx, Env, ◌>>=◌, ◌>>◌, fail_if, or_fail, wrap, finish, in_transaction,
  after, IsOk,
}

module _ {A B : Type 0} where
  -- A chain that went well, part by part.
  pub >>=-eq-ok :
      (m : Tx A) (f : A → Tx B) (db : Db) {b : B} {w : Db}
      → (m >>= f) db ≡ ok b w
      → (a : A) × (v : Db) × (m db ≡ ok a v) × (f a v ≡ ok b w)
  >>=-eq-ok m f db {b} {w} h = go (m db) refl h
    where
      go :
          (o : Outcome A)
          → m db ≡ o
          → Path (Outcome B) (elim o [ ok a v ↦ f a v | err e v ↦ err e v ]) (ok b w)
          → (a : A) × (v : Db) × (m db ≡ ok a v) × (f a v ≡ ok b w)
      go (ok a v) e k = (a, v, e, k)
      go (err x v) e k = absurd (cc)

  -- A chain whose first part goes well goes on with its second.
  pub >>-ok : (m : Tx A) (k : Tx B) (db : Db) {a : A} {v : Db} → m db ≡ ok a v → (m >> k) db ≡ k v
  >>-ok m k db h = ap (λ o. elim o [ ok a v ↦ k v | err e v ↦ err e v ]) h

module _ {A : Type 0} where
  pub wrap-eq-ok :
      (f : Error → Error) (m : Tx A) (db : Db) {a : A} {w : Db}
      → wrap f m db ≡ ok a w
      → m db ≡ ok a w
  wrap-eq-ok f m db h = ground arith

  -- A transaction that went well was begun and committed, and left what its body left.
  pub in_transaction-eq-ok :
      (env : Env) (body : Tx A) (db : Db) {a : A} {w : Db}
      → in_transaction env body db ≡ ok a w
      → (body db ≡ ok a w) × (env.begins ≡ true) × (env.commits ≡ true)
  unfolding in_transaction
  in_transaction-eq-ok env body db {a} {w} h =
      go env.begins env.commits env.lost (body db) refl refl refl h
    where
      go :
          (x y z : Bool) (o : Outcome A)
          → env.begins ≡ x
          → env.commits ≡ y
          → body db ≡ o
          → Path (Outcome A) (if x then finish y z db o else err Error.begin_failed db) (ok a w)
          → (body db ≡ ok a w) × (env.begins ≡ true) × (env.commits ≡ true)
      go true true z (ok b v) p q r k = (r ∙ k, p, q)
      go true false z (ok b v) p q r k = absurd (cc)
      go true y z (err e v) p q r k = absurd (cc)
      go false y z o p q r k = absurd (cc)

  -- One that went wrong left nothing behind, or its body went well and the answer to the commit was
  -- lost.
  pub in_transaction-err :
      (env : Env) (body : Tx A) (db : Db) {e : Error} {w : Db}
      → in_transaction env body db ≡ err e w
      → (w ≡ db) ⊎ ((env.lost ≡ true) × (a : A) × (body db ≡ ok a w))
  unfolding in_transaction
  in_transaction-err env body db {e} {w} h =
      go env.begins env.commits env.lost (body db) refl refl h
    where
      go :
          (x y z : Bool) (o : Outcome A)
          → env.lost ≡ z
          → body db ≡ o
          → Path (Outcome A) (if x then finish y z db o else err Error.begin_failed db) (err e w)
          → (w ≡ db) ⊎ ((env.lost ≡ true) × (a : A) × (body db ≡ ok a w))
      go true true z (ok a v) q r k = absurd (cc)
      go true false true (ok a v) q r k = inr (q, a, r ∙ ap (ok a) (cc))
      go true false false (ok a v) q r k = inl (cc)
      go true y z (err x v) q r k = inl (cc)
      go false y z o q r k = inl (cc)

  -- A body that fails leaves nothing behind, nor does a commit that fails and has not taken place.
  pub in_transaction-after :
      (env : Env) (body : Tx A) (db : Db)
      → env.lost ≡ false
      → ¬ IsOk (in_transaction env body db)
      → after (in_transaction env body db) ≡ db
  in_transaction-after env body db kept failed = go (in_transaction env body db) refl failed
    where
      go : (o : Outcome A) → in_transaction env body db ≡ o → ¬ IsOk o → after o ≡ db
      go (ok a w) e failure = absurd (failure tt)
      go (err x w) e failure = elim (in_transaction-err env body db e) [
        | inl same ↦ same
        | inr (lost, _, _) ↦ absurd (cc)
      ]

  -- The body's own error comes back.
  pub in_transaction-body_err :
      (env : Env) (body : Tx A) (db : Db) {e : Error} {w : Db}
      → env.begins ≡ true
      → body db ≡ err e w
      → in_transaction env body db ≡ err e db
  unfolding in_transaction
  in_transaction-body_err env body db b h = ground arith

-- A guard that let the call go on.
pub fail_if-eq-ok :
    {B : Type 0} (b : Bool) (e : Error) (k : Tx B) (db : Db) {a : B} {w : Db}
    → (fail_if b e >> k) db ≡ ok a w
    → (b ≡ false) × (k db ≡ ok a w)
fail_if-eq-ok true e k db h = absurd (cc)
fail_if-eq-ok false e k db h = (refl, h)

-- A row that was there.
pub or_fail-eq-ok :
    {A B : Type 0} (e : Error) (o : Option A) (k : A → Tx B) (db : Db) {a : B} {w : Db}
    → (or_fail e o >>= k) db ≡ ok a w
    → (x : A) × (o ≡ some x) × (k x db ≡ ok a w)
or_fail-eq-ok e none k db h = absurd (cc)
or_fail-eq-ok e (some x) k db h = (x, refl, h)

pub ok-injective : {A : Type 0} {a b : A} {v w : Db} → ok a v ≡ ok b w → (a ≡ b) × (v ≡ w)
ok-injective h = (cc, cc)
