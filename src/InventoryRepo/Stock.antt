-- ===== src/InventoryRepo/Stock.antt =====
-- What the statements of the inventory do to the stock of each variant at each branch.
use ficct_boutique_backend_g.Base.{
  ◌≡◌, refl, true, false, Option, some, List, [], ◌∷◌, ◌&&◌, ◌==◌, inl, inr, if◌then◌else◌,
  find_where, any_where, update_where, arith, Bool-cases,
}
use ficct_boutique_backend_g.Base.Int.{ℤ, ◌-ℤ◌, ◌≤ℤ◌, leb_ℤ}
use ficct_boutique_backend_g.Models.{Uuid, Inventory}
use ficct_boutique_backend_g.Store.{Env}
use ficct_boutique_backend_g.InventoryRepo.{at_key, has_stock, take_stock}
use mathlib.Core.Option

-- The stock of a variant at a branch, if there is a row for it.
abbrev pub stock : Uuid → Uuid → List Inventory → Option ℤ
stock v b rows = Option.map (λ x. x.quantity) (find_where (at_key v b) rows)

-- UNIQUE (variant_id, branch_id)
abbrev pub HasUniqueKeys : List Inventory → Type 0
HasUniqueKeys [] = Unit
HasUniqueKeys (x ∷ xs) = (any_where (at_key x.variant_id x.branch_id) xs ≡ false) × HasUniqueKeys xs

-- Where keys are unique, a test on the row with a key is a test on the row that is found.
any_at_key :
    (v b : Uuid) (q : ℤ) (rows : List Inventory)
    → any_where (at_key v b) rows ≡ false
    → any_where (has_stock v b q) rows ≡ false
any_at_key v b q [] h = refl
any_at_key v b q (x ∷ xs) h = ground (arith, any_at_key v b q xs)

pub any-has_stock :
    (v b : Uuid) (q : ℤ) (rows : List Inventory)
    → HasUniqueKeys rows
    → any_where (has_stock v b q) rows ≡ true
    → (old : ℤ) × (stock v b rows ≡ some old) × (q ≤ℤ old)
any-has_stock v b q [] u h = absurd (cc)
any-has_stock v b q (x ∷ xs) u h = elim (Bool-cases (at_key v b x)) [
  | inl hit ↦ (x.quantity, ground arith, ground (arith, same x hit, any_at_key v b q xs))
  | inr miss ↦
      let (old, e, le) = any-has_stock v b q xs u.1 (ground arith) in (old, ground arith, le)
]
  where
    same : (y : Inventory) → at_key v b y ≡ true → (y.variant_id ≡ v) × (y.branch_id ≡ b)
    same y hit = ground arith

-- The rows after an UPDATE that takes `q` out of the stock of `v` at `b`, seen by stock.
pub stock-take_stock :
    (env : Env) (v b v' b' : Uuid) (q : ℤ) (rows : List Inventory)
    → stock v' b' (update_where (has_stock v b q) (take_stock env q) rows)
      ≡ Option.map (λ s. if v' == v && b' == b && leb_ℤ q s then s -ℤ q else s) (stock v' b' rows)
stock-take_stock env v b v' b' q [] = refl
stock-take_stock env v b v' b' q (x ∷ xs) = ground (arith, stock-take_stock env v b v' b' q xs)

pub none_has_stock :
    (v b : Uuid) (q s : ℤ) (rows : List Inventory)
    → any_where (has_stock v b q) rows ≡ false
    → stock v b rows ≡ some s
    → leb_ℤ q s ≡ false
none_has_stock v b q s [] h e = absurd (cc)
none_has_stock v b q s (x ∷ xs) h e = ground (arith, none_has_stock v b q s xs)
