-- ===== src/Store/Keeps.antt =====
-- Calls that keep a property of one table, composed the way the calls are.
use ficct_boutique_backend_g.Base.{true, false, Bool, Option, none, some, List, if◌then◌else◌}
use ficct_boutique_backend_g.Models.{Inventory}
use ficct_boutique_backend_g.Store.{
  Db, Error, Outcome, ok, err, Tx, Env, ◌>>=◌, ◌>>◌, fail_if, or_fail, wrap, finish, in_transaction,
  after, read_on_pool,
}

module _ (P : List Inventory → Type 0) where
  -- However the call ends, the table `inventory` has the property afterwards if it had it before.
  abbrev pub Keeps : {A : Type 0} → Tx A → Type 0
  Keeps m = (db : Db) → P db.inventory → P (after (m db)).inventory

  pub >>=-Keeps :
      {A B : Type 0} (m : Tx A) (f : A → Tx B) → Keeps m → ((a : A) → Keeps (f a)) → Keeps (m >>= f)
  >>=-Keeps {A = A} {B = B} m f k l db p = go (m db) (k db p)
    where
      go :
          (o : Outcome A)
          → P (after o).inventory
          → P (after {A = B} (elim o [ ok a v ↦ f a v | err e v ↦ err e v ])).inventory
      go (ok a v) q = l a v q
      go (err e v) q = q

  pub fail_if-Keeps :
      {A : Type 0} (b : Bool) (e : Error) (k : Tx A) → Keeps k → Keeps (fail_if b e >> k)
  fail_if-Keeps true e k l db p = p
  fail_if-Keeps false e k l db p = l db p

  pub or_fail-Keeps :
      {A B : Type 0} (e : Error) (o : Option A) (f : A → Tx B)
      → ((a : A) → Keeps (f a))
      → Keeps (or_fail e o >>= f)
  or_fail-Keeps e none f l db p = p
  or_fail-Keeps e (some a) f l db p = l a db p

  pub row-Keeps : {A : Type 0} (e : Error) (o : Option A) → Keeps (or_fail e o)
  row-Keeps e none db p = p
  row-Keeps e (some a) db p = p

  pub if-Keeps :
      {A : Type 0} (b : Bool) (m k : Tx A) → Keeps m → Keeps k → Keeps (if b then m else k)
  if-Keeps true m k l r db p = l db p
  if-Keeps false m k l r db p = r db p

  pub wrap-Keeps : {A : Type 0} (w : Error → Error) (m : Tx A) → Keeps m → Keeps (wrap w m)
  wrap-Keeps {A = A} w m k db p = go (m db) (k db p)
    where
      go :
          (o : Outcome A)
          → P (after o).inventory
          → P (after {A = A} (elim o [ ok a d ↦ ok a d | err e d ↦ err (w e) d ])).inventory
      go (ok a v) q = q
      go (err e v) q = q

  -- A transaction keeps what its body keeps, by its rollback also where the body fails.
  pub in_transaction-Keeps :
      {A : Type 0} (env : Env) (body : Tx A) → Keeps body → Keeps (in_transaction env body)
  unfolding in_transaction
  in_transaction-Keeps {A = A} env body k db p =
      go env.begins env.commits env.lost (body db) (k db p)
    where
      go :
          (x y z : Bool) (o : Outcome A)
          → P (after o).inventory
          → P (after (if x then finish y z db o else err Error.begin_failed db)).inventory
      go true true z (ok a v) q = q
      go true false true (ok a v) q = q
      go true false false (ok a v) q = p
      go true y z (err e v) q = p
      go false y z o q = p

  pub read_on_pool-Keeps :
      {A : Type 0} (m : Tx A) (committed : Db) → Keeps (read_on_pool m committed)
  read_on_pool-Keeps {A = A} m committed db p = go (m committed)
    where
      go :
          (o : Outcome A)
          → P (after {A = A} (elim o [ ok a w ↦ ok a db | err e w ↦ err e db ])).inventory
      go (ok a w) = p
      go (err e w) = p
