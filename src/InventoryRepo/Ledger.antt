-- ===== src/InventoryRepo/Ledger.antt =====
-- The inventory as a ledger: any sequence of the statements of internal/repository/inventory.go that
-- change the table, by whomever they are sent.
pub mod Atomic
pub mod Refines
use ficct_boutique_backend_g.Base.{
  ℕ, ◌≡◌, Bool, true, false, ◌&&◌, Option, none, some, List, [], ◌∷◌, ◌==◌, if◌then◌else◌,
}
use mathlib.Core.Option
use ficct_boutique_backend_g.Base.Int.{ℤ, pos, ◌+ℤ◌, ◌-ℤ◌, ◌≤ℤ◌}
use ficct_boutique_backend_g.Models.{Uuid}
use ficct_boutique_backend_g.Store.{Db, Tx, Env, Outcome, ok, err, after}
use ficct_boutique_backend_g.InventoryRepo
use ficct_boutique_backend_g.InventoryRepo.{at_least_zero}
use ficct_boutique_backend_g.InventoryRepo.Stock.{stock}

pub data Call : Type 0 where
  upsert : Uuid → Uuid → ℤ → ℤ → Call
  set_to : Uuid → Uuid → ℤ → Call
  adjust : Uuid → Uuid → ℤ → Call
  reorder : Uuid → Uuid → ℤ → Call
  sell : Uuid → Uuid → ℤ → Call

abbrev pub forget : {A : Type 0} → Outcome A → Outcome (Unit {0})
forget (ok a w) = ok tt w
forget (err e w) = err e w

-- The call, each a statement of its own.
abbrev pub perform : Env → Call → Tx (Unit {0})
perform env (upsert v b q r) db = forget (InventoryRepo.upsert env v b q r db)
perform env (set_to v b q) db = forget (InventoryRepo.set_stock env v b q db)
perform env (adjust v b delta) db = forget (InventoryRepo.adjust_stock env v b delta db)
perform env (reorder v b level) db = forget (InventoryRepo.set_reorder_level env v b level db)
perform env (sell v b q) db = InventoryRepo.decrement_for_sale env v b q db

abbrev pub accepted : {A : Type 0} → Outcome A → Bool
accepted (ok a w) = true
accepted (err e w) = false

-- The database after some calls, one after the other.
unfoldable pub run : List (Env × Call) → Db → Db
run [] db = db
run ((env, c) ∷ calls) db = run calls (after (perform env c db))

-- Which of them went well.
unfoldable pub log : List (Env × Call) → Db → List (Call × Bool)
log [] db = []
log ((env, c) ∷ calls) db = (c, accepted (perform env c db)) ∷ log calls (after (perform env c db))

-- What the ledger promises: a stock for each variant at each branch, or none.
abbrev pub Book : Type 0
Book = Uuid → Uuid → Option ℤ

abbrev pub enter : Uuid → Uuid → Option ℤ → Book → Book
enter v b s book v' b' = if v' == v && b' == b then s else book v' b'

abbrev pub apply : Call → Book → Book
apply (upsert v b q r) book = enter v b (some q) book
apply (set_to v b q) book = enter v b (some q) book
apply (adjust v b delta) book =
    enter v b (Option.map (λ s. at_least_zero (s +ℤ delta)) (book v b)) book
apply (reorder v b level) book = book
apply (sell v b q) book = enter v b (Option.map (λ s. s -ℤ q) (book v b)) book

-- What has to hold for a call to go well.
abbrev pub IsAllowed : Call → Book → Type 0
IsAllowed (upsert v b q r) book = pos 0 ≤ℤ q
IsAllowed (set_to v b q) book = pos 0 ≤ℤ q
IsAllowed (adjust v b delta) book = (old : ℤ) × (book v b ≡ some old)
IsAllowed (reorder v b level) book = (old : ℤ) × (book v b ≡ some old)
IsAllowed (sell v b q) book = (old : ℤ) × (book v b ≡ some old) × (q ≤ℤ old)

-- The ledger after the calls that went well, and that each of them was allowed.
abbrev pub replay : List (Call × Bool) → Book → Book
replay [] book = book
replay ((c, true) ∷ calls) book = replay calls (apply c book)
replay ((c, false) ∷ calls) book = replay calls book

abbrev pub AreAllowed : List (Call × Bool) → Book → Type 0
AreAllowed [] book = Unit
AreAllowed ((c, true) ∷ calls) book = IsAllowed c book × AreAllowed calls (apply c book)
AreAllowed ((c, false) ∷ calls) book = AreAllowed calls book

-- The ledger that a table is.
abbrev pub book_of : Db → Book
book_of db v b = stock v b db.inventory
