-- ===== src/InventoryRepo/Ledger/Refines.antt =====
-- The statements of internal/repository/inventory.go refine the ledger.
use ficct_boutique_backend_g.Base.{
  ◌≡◌, ◌∙◌, refl, sym, ap, subst, Bool, true, false, not, ◌&&◌, Option, none, some, List, [], ◌∷◌,
  ◌==◌, if◌then◌else◌, find_where, update_where, arith, Bool-cases, ==_iff, inl, inr,
}
use mathlib.Core.Option
use mathlib.Core.Path.{fun_ext}
use ficct_boutique_backend_g.Base.Int.{ℤ, pos, ◌+ℤ◌, ◌-ℤ◌, fits_int32}
use ficct_boutique_backend_g.Models.{Uuid, Inventory}
use ficct_boutique_backend_g.Store.{Db, Error, Env, Outcome, ok, err, after, IsOk}
use ficct_boutique_backend_g.Store.Laws.{fail_if-eq-ok, or_fail-eq-ok, ok-injective}
use ficct_boutique_backend_g.InventoryRepo.{
  at_key, at_least_zero, update_inventory, upsert as upsert_row, adjust_stock, set_stock,
  set_reorder_level, decrement_for_sale,
}
use ficct_boutique_backend_g.InventoryRepo.Stock.{stock, any-has_stock}
use ficct_boutique_backend_g.InventoryRepo.Sound.{
  IsSound, upsert-IsSound, set_stock-IsSound, adjust_stock-IsSound, set_reorder_level-IsSound,
  decrement_for_sale-IsSound,
}
use ficct_boutique_backend_g.InventoryRepo.Result.{
  adjust_stock-IsStockSet, upsert-IsStockSet, set_stock-IsStockSet, set_stock-nonneg,
  stock-update_key, stock-found,
}
use ficct_boutique_backend_g.InventoryRepo.Ledger.Atomic.{
  upsert-IsAtomic, set_stock-IsAtomic, adjust-IsAtomic, reorder-IsAtomic, decrement-IsAtomic,
}
use ficct_boutique_backend_g.SalesService.Stock.{
  less, less_zero, decrement-stock, decrement_for_sale-eq-ok,
}
use ficct_boutique_backend_g.InventoryRepo.Ledger.{
  Call, upsert, set_to, adjust, reorder, sell, forget, perform, accepted, run, log, Book, apply,
  IsAllowed, replay, AreAllowed, book_of,
}

-- What a call does, seen from the ledger: it was allowed and is entered, or nothing happened.
abbrev IsStep : Call → Db → Outcome (Unit {0}) → Type 0
IsStep c db (ok _ w) =
    IsAllowed c (book_of db) × ((v b : Uuid) → book_of w v b ≡ apply c (book_of db) v b)
IsStep c db (err e w) = w ≡ db

forget-IsStep :
    {A : Type 0} (c : Call) (db : Db) (o : Outcome A)
    → (¬ IsOk o → after o ≡ db)
    → ((a : A) (w : Db) → o ≡ ok a w → IsStep c db (ok tt w))
    → IsStep c db (forget o)
forget-IsStep c db (ok a w) atomic good = good a w refl
forget-IsStep c db (err e w) atomic good = atomic (λ k. k)

reorder-eq-ok :
    (env : Env) (v b : Uuid) (level : ℤ) (db w : Db) (row : Inventory)
    → set_reorder_level env v b level db ≡ ok row w
    → (old : Inventory) × (find_where (at_key v b) db.inventory ≡ some old)
      × (w ≡ record db {
        inventory =
            update_where
              (at_key v b)
              (λ x. record x { reorder_level = level; updated_at = env.now })
              db.inventory;
      })
unfolding set_reorder_level update_inventory
reorder-eq-ok env v b level db w row h =
    let (_, h1) = fail_if-eq-ok (not (fits_int32 level)) Error.out_of_range _ db h in
    let (old, found, h2) =
      or_fail-eq-ok Error.no_rows (find_where (at_key v b) db.inventory) _ db h1 in
    (old, found, sym (ok-injective h2).1)

map-same : (o : Option ℤ) → Option.map (λ q. q) o ≡ o
map-same none = refl
map-same (some q) = refl

-- Where the key is the same, so is the stock.
at_same :
    (v b v' b' : Uuid) (f : Option ℤ → Option ℤ) (rows : List Inventory)
    → (if v' == v && b' == b then f (stock v b rows) else stock v' b' rows)
      ≡ (if v' == v && b' == b then f (stock v' b' rows) else stock v' b' rows)
at_same v b v' b' f rows = elim (Bool-cases (v' == v && b' == b)) [
  | inl hit ↦ rw hit (
      ap f (
        ap (λ x. stock x b rows) (sym ((==_iff v' v).0 (ground arith)))
        ∙ ap (λ x. stock v' x rows) (sym ((==_iff b' b).0 (ground arith)))))
  | inr miss ↦ rw miss refl
]

same_stock : (c : Bool) (o : Option ℤ) → (if c then Option.map (λ q. q) o else o) ≡ o
same_stock true o = map-same o
same_stock false o = refl

less_if :
    (c : Bool) (q : ℤ) (o : Option ℤ)
    → less o (if c then q else pos 0) ≡ (if c then Option.map (λ s. s -ℤ q) o else o)
less_if true q o = refl
less_if false q o = less_zero o

perform-IsStep :
    (env : Env) (c : Call) (db : Db) → IsSound db.inventory → IsStep c db (perform env c db)
perform-IsStep env (upsert v b q r) db sound =
    forget-IsStep (upsert v b q r) db (upsert_row env v b q r db) (upsert-IsAtomic env v b q r db)
      λ row w h. let (nonneg, _, left) = upsert-IsStockSet env v b q r db w row h in (nonneg, left)
perform-IsStep env (set_to v b q) db sound =
    forget-IsStep (set_to v b q) db (set_stock env v b q db) (set_stock-IsAtomic env v b q db)
      λ row w h.
        (set_stock-nonneg env v b q db w row h, (set_stock-IsStockSet env v b q db w row h).1)
perform-IsStep env (adjust v b delta) db sound =
    forget-IsStep (adjust v b delta) db (adjust_stock env v b delta db)
      (adjust-IsAtomic env v b delta db)
      λ row w h.
        let (old, found, _, left) = adjust_stock-IsStockSet env v b delta db w row h in
        (
          (old, found),
          λ v' b'.
              left v' b'
              ∙ ap
                  (λ o.
                    if v' == v && b' == b
                    then Option.map (λ s. at_least_zero (s +ℤ delta)) o
                    else stock v' b' db.inventory)
                  (sym found),
        )
perform-IsStep env (reorder v b level) db sound =
    forget-IsStep (reorder v b level) db (set_reorder_level env v b level db)
      (reorder-IsAtomic env v b level db)
      λ row w h.
        let (old, found, left) = reorder-eq-ok env v b level db w row h in
        (
          (old.quantity, stock-found v b db.inventory old found),
          λ v' b'.
              ap (λ (d : Db). stock v' b' d.inventory) left
              ∙ (stock-update_key v b v' b' _ (λ q. q) db.inventory (λ x. (refl, refl, refl))
                  ∙ (at_same v b v' b' (Option.map (λ q. q)) db.inventory
                      ∙ same_stock (v' == v && b' == b) (stock v' b' db.inventory))),
        )
perform-IsStep env (sell v b q) db sound = same_call (decrement_for_sale env v b q db) (
    forget-IsStep (sell v b q) db (decrement_for_sale env v b q db)
      (decrement-IsAtomic env v b q db)
      λ t w h.
        let (enough, _) = decrement_for_sale-eq-ok env v b q db w h in
        (
          any-has_stock v b q db.inventory sound.unique enough,
          λ v' b'.
              decrement-stock env v b v' b' q db w sound.unique h
              ∙ (less_if (v' == v && b' == b) q (stock v' b' db.inventory)
                  ∙ sym (at_same v b v' b' (Option.map (λ s. s -ℤ q)) db.inventory)),
        ))
  where
    same_call :
        (o : Outcome (Unit {0})) → IsStep (sell v b q) db (forget o) → IsStep (sell v b q) db o
    same_call (ok t w) h = h
    same_call (err e w) h = h

after-forget : {A : Type 0} (o : Outcome A) → after (forget o) ≡ after o
after-forget (ok a w) = refl
after-forget (err e w) = refl

-- The database that a call leaves is sound.
perform-IsSound :
    (env : Env) (c : Call) (db : Db)
    → IsSound db.inventory
    → IsSound (after (perform env c db)).inventory
perform-IsSound env (upsert v b q r) db sound =
    subst (λ (d : Db). IsSound d.inventory) (sym (after-forget (upsert_row env v b q r db)))
      (upsert-IsSound env v b q r db sound)
perform-IsSound env (set_to v b q) db sound =
    subst (λ (d : Db). IsSound d.inventory) (sym (after-forget (set_stock env v b q db)))
      (set_stock-IsSound env v b q db sound)
perform-IsSound env (adjust v b delta) db sound =
    subst (λ (d : Db). IsSound d.inventory) (sym (after-forget (adjust_stock env v b delta db)))
      (adjust_stock-IsSound env v b delta db sound)
perform-IsSound env (reorder v b level) db sound =
    subst (λ (d : Db). IsSound d.inventory)
      (sym (after-forget (set_reorder_level env v b level db)))
      (set_reorder_level-IsSound env v b level db sound)
perform-IsSound env (sell v b q) db sound = decrement_for_sale-IsSound env v b q db sound

-- One step of the ledger and of the table side by side, and then the rest.
replay-step :
    (c : Call) (db : Db) (o : Outcome (Unit {0})) (rest : List (Call × Bool)) (last : Book)
    → IsStep c db o
    → (last ≡ replay rest (book_of (after o))) × AreAllowed rest (book_of (after o))
    → (last ≡ replay ((c, accepted o) ∷ rest) (book_of db))
      × AreAllowed ((c, accepted o) ∷ rest) (book_of db)
replay-step c db (ok t w) rest last (allowed, entered) (same, are) =
    let book : book_of w ≡ apply c (book_of db) = fun_ext λ v. fun_ext λ b. entered v b in
    (same ∙ ap (replay rest) book, (allowed, subst (AreAllowed rest) book are))
replay-step c db (err e w) rest last nothing (same, are) = (
  same ∙ ap (λ d. replay rest (book_of d)) nothing,
  subst (λ d. AreAllowed rest (book_of d)) nothing are,
)

-- Any sequence of the five statements that change the inventory, whoever sends them and however each
-- of them ends, does to a table in order what the ledger says: the stock that the last of them
-- leaves, of every variant at every branch, is that of the ledger in which the calls that went well
-- are entered, in their order, and each of these was allowed (no stock is set below zero, only stock
-- that is there is adjusted, and no more than there is is sold). Those that failed have done nothing.
pub run-replay :
    (calls : List (Env × Call)) (db : Db)
    → IsSound db.inventory
    → (book_of (run calls db) ≡ replay (log calls db) (book_of db))
      × AreAllowed (log calls db) (book_of db)
unfolding run log
run-replay [] db sound = (refl, tt)
run-replay ((env, c) ∷ calls) db sound =
    let o = perform env c db in
    replay-step c db o (log calls (after o)) (book_of (run calls (after o)))
      (perform-IsStep env c db sound) (run-replay calls (after o) (perform-IsSound env c db sound))
