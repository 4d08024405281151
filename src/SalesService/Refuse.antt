-- ===== src/SalesService/Refuse.antt =====
-- When ConfirmSale of internal/service/sales_service.go fails, and what it leaves behind then.
use ficct_boutique_backend_g.Base.{
  ◌≡◌, refl, ◌∙◌, sym, ap, true, false, Option, none, some, List, inl, inr, String, find_where, [],
  ◌∷◌, update_where, Bool-cases, arith, Option-cases, ==_refl, All-find_where,
}
use ficct_boutique_backend_g.Base.Int.{ℤ, pos, ◌-ℤ◌, ◌≤ℤ◌, int_laws}
use ficct_boutique_backend_g.Models.{Uuid, is_pending, Sale, SaleItem, Inventory}
use ficct_boutique_backend_g.Store.{Db, Error, Env, Outcome, ok, err, IsOk, after, in_transaction}
use ficct_boutique_backend_g.Store.Laws.{
  in_transaction-err, in_transaction-eq-ok, in_transaction-body_err, in_transaction-after,
}
use ficct_boutique_backend_g.SalesRepo.{is_pending_sale, confirmed_now, find, items_of}
use ficct_boutique_backend_g.InventoryRepo.{at_key}
use ficct_boutique_backend_g.InventoryRepo.Stock.{stock}
use ficct_boutique_backend_g.InventoryRepo.Sound.{IsSound, IsNonneg}
use ficct_boutique_backend_g.SalesService.Stock.{less, sold, sold_at, decrement_items-frame}
use ficct_boutique_backend_g.SalesService.Steps.{confirm_read-Steps}
use ficct_boutique_backend_g.SalesService.Confirm.{
  by_id, confirm_sale-Confirmed, confirm_sale-IsSound, confirm_sale-eq-ok, final_sales,
}
use ficct_boutique_backend_g.SalesService.{ConfirmSaleResult, confirm_read, confirm_sale}

-- Whatever goes wrong in a confirmation (no such sale, a sale that is not pending, too little
-- stock, a constraint of a table, a failed commit that has not taken place), the database is as it
-- was before.
pub confirm_sale_atomic :
    (env : Env) (url : String) (sale : Uuid) (db : Db)
    → env.lost ≡ false
    → ¬ IsOk (confirm_sale env url sale db)
    → after (confirm_sale env url sale db) ≡ db
unfolding confirm_sale
confirm_sale_atomic env url sale db kept failed = in_transaction-after env _ db kept failed

confirm_read_not_pending :
    (env : Env) (url : String) (s : Sale) (items : List SaleItem) (db : Db)
    → is_pending s.status ≡ false
    → confirm_read env url (s, items) db ≡ err Error.sale_not_pending db
unfolding confirm_read
confirm_read_not_pending env url s items db h = rw h refl

find-some :
    (sale : Uuid) (db : Db) (s : Sale)
    → find_where (by_id sale) db.sales ≡ some s
    → find sale db ≡ ok (s, items_of sale db) db
unfolding find
find-some sale db s h = ground arith

-- A sale that is stored and not pending is refused as such, and the database stays as it is.
pub confirm_sale_not_pending :
    (env : Env) (url : String) (sale : Uuid) (db : Db) (s : Sale)
    → env.begins ≡ true
    → find_where (by_id sale) db.sales ≡ some s
    → is_pending s.status ≡ false
    → confirm_sale env url sale db ≡ err Error.sale_not_pending db
unfolding confirm_sale
confirm_sale_not_pending env url sale db s b found h = in_transaction-body_err env _ db b (
    ap
      (λ (o : Outcome (Sale × List SaleItem)).
        elim (elim o as (λ (_ : Outcome (Sale × List SaleItem)). Outcome (Sale × List SaleItem)) [
          | ok a w ↦ ok a db
          | err e w ↦ err e db
        ])
          as (λ (_ : Outcome (Sale × List SaleItem)). Outcome ConfirmSaleResult) [
            | ok a w ↦ confirm_read env url a w
            | err e w ↦ err e w
          ])
      (find-some sale db s found)
    ∙ confirm_read_not_pending env url s (items_of sale db) db h)

-- A sale is confirmed once: after a confirmation that went well, a second one of the same sale, at
-- any time and with any target, is refused because the sale is not pending, and changes nothing.
pub confirm_sale_once :
    (env env' : Env) (url url' : String) (sale : Uuid) (db w : Db) (r : ConfirmSaleResult)
    → IsSound db.inventory
    → confirm_sale env url sale db ≡ ok r w
    → env'.begins ≡ true
    → confirm_sale env' url' sale w ≡ err Error.sale_not_pending w
confirm_sale_once env env' url url' sale db w r sound h b =
    let c = confirm_sale-Confirmed env url sale db w r sound h in
    confirm_sale_not_pending env' url' sale w r.sale b c.stored
      (ap (λ (s : Sale). is_pending s.status) c.confirms)

confirm_read_gone :
    (env : Env) (url : String) (s : Sale) (items : List SaleItem) (db : Db)
    → find_where (is_pending_sale s.id) db.sales ≡ none
    → ¬ IsOk (in_transaction env (confirm_read env url (s, items)) db)
      × (after (in_transaction env (confirm_read env url (s, items)) db) ≡ db)
confirm_read_gone env url s items db gone =
    go (in_transaction env (confirm_read env url (s, items)) db) refl
  where
    impossible : (r : ConfirmSaleResult) (w : Db) → confirm_read env url (s, items) db ≡ ok r w → ⊥
    impossible r w body =
        let t = confirm_read-Steps env url s items db w r body in
        let same = decrement_items-frame env s.branch_id items db t.stocked t.taken in
        cc (
          sym gone
          ∙ ap (λ (d : Db). find_where (is_pending_sale s.id) d.sales) (sym same)
          ∙ t.found)

    go :
        (o : Outcome ConfirmSaleResult)
        → in_transaction env (confirm_read env url (s, items)) db ≡ o
        → ¬ IsOk o × (after o ≡ db)
    go (ok r w) e =
        absurd (impossible r w (in_transaction-eq-ok env (confirm_read env url (s, items)) db e).0)
    go (err x w) e = (
      (λ h. h),
      elim (in_transaction-err env (confirm_read env url (s, items)) db e) [
        | inl same ↦ same
        | inr (_, r, body) ↦ absurd (impossible r w body)
      ],
    )

-- Every row with the identifier is confirmed, so none of them is pending any more.
none_pending :
    (env : Env) (sale : Uuid) (rows : List Sale)
    → find_where
        (is_pending_sale sale)
        (update_where (is_pending_sale sale) (confirmed_now env) rows)
      ≡ none
none_pending env sale [] = refl
none_pending env sale (x ∷ xs) = elim (Bool-cases (is_pending_sale sale x)) [
  | inl hit ↦ ground (arith, none_pending env sale xs)
  | inr miss ↦ ground (arith, none_pending env sale xs)
]

-- The read of the sale is not part of the transaction. If two calls confirm the same sale, and the
-- second has read it, still pending and with whatever items, before the first went through, the
-- second does not succeed and changes nothing: the sale is confirmed once, and its stock is taken
-- once.
pub confirm_read_stale :
    (env later : Env) (url : String) (s : Sale) (items : List SaleItem) (db w : Db)
    (r : ConfirmSaleResult)
    → confirm_sale env url s.id db ≡ ok r w
    → ¬ IsOk (in_transaction later (confirm_read later url (s, items)) w)
      × (after (in_transaction later (confirm_read later url (s, items)) w) ≡ w)
confirm_read_stale env later url s items db w r h =
    let (before, found, t) = confirm_sale-eq-ok env url s.id db w r h in
    confirm_read_gone later url s items w (
      ap (find_where (is_pending_sale s.id)) (final_sales env url s.id db w r before found t)
      ∙ none_pending env s.id db.sales)

-- In a sound inventory no stock is negative.
stock_nonneg :
    (v b : Uuid) (rows : List Inventory) (q : ℤ)
    → IsSound rows
    → stock v b rows ≡ some q
    → pos 0 ≤ℤ q
stock_nonneg v b rows q s e = elim (Option-cases (find_where (at_key v b) rows)) [
  | inl missing ↦ absurd (ground arith)
  | inr (row, found) ↦ ground (arith, All-find_where IsNonneg (at_key v b) rows row s.nonneg found)
]

sold_at_self :
    (branch v : Uuid) (items : List SaleItem) → sold_at branch v branch items ≡ sold v items
sold_at_self branch v items = rw (==_refl branch) refl

found_same : (x y : Sale) → some x ≡ some y → x ≡ y
found_same x y e = cc

-- Overselling is refused: if the items of a sale hold more units of some variant, over all of its
-- lines, than the branch of the sale has in stock, the confirmation does not succeed.
pub confirm_sale_short :
    (env : Env) (url : String) (sale : Uuid) (db : Db) (s : Sale) (v : Uuid) (q : ℤ)
    → IsSound db.inventory
    → find_where (by_id sale) db.sales ≡ some s
    → stock v s.branch_id db.inventory ≡ some q
    → ¬ (sold v (items_of sale db) ≤ℤ q)
    → ¬ IsOk (confirm_sale env url sale db)
confirm_sale_short env url sale db s v q sound found st short =
    go (confirm_sale env url sale db) refl
  where
    less_neg : (a b : ℤ) → pos 0 ≤ℤ a -ℤ b → b ≤ℤ a
    less_neg a b h = omega int_laws

    impossible : (r : ConfirmSaleResult) (w : Db) → confirm_sale env url sale db ≡ ok r w → ⊥
    impossible r w e =
        let c = confirm_sale-Confirmed env url sale db w r sound e in
        let same : c.before ≡ s = found_same c.before s (sym c.found ∙ found) in
        let left : stock v s.branch_id w.inventory ≡ some (q -ℤ sold v (items_of sale db)) =
          c.takes v s.branch_id
          ∙ ap
              (λ (x : Sale).
                less (stock v s.branch_id db.inventory)
                  (sold_at x.branch_id v s.branch_id (items_of sale db)))
              same
          ∙ ap (λ (o : Option ℤ). less o (sold_at s.branch_id v s.branch_id (items_of sale db))) st
          ∙ ap (λ (t : ℤ). some (q -ℤ t)) (sold_at_self s.branch_id v (items_of sale db)) in
        short (
          less_neg q (sold v (items_of sale db)) (
            stock_nonneg v s.branch_id w.inventory (q -ℤ sold v (items_of sale db))
              (confirm_sale-IsSound env url sale db w r sound e) left))

    go : (o : Outcome ConfirmSaleResult) → confirm_sale env url sale db ≡ o → ¬ IsOk o
    go (ok r w) e = λ _. impossible r w e
    go (err x w) e = λ h. h
