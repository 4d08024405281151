-- ===== src/SalesService/Clash.antt =====
-- Order codes: ConfirmSale of internal/service/sales_service.go draws one, and `orders` keeps them
-- unique (migrations/0001_init.up.sql).
use ficct_boutique_backend_g.Base.{
  ◌≡◌, refl, ◌∙◌, sym, ap, true, Bool, String, any_where, str_eq, List,
}
use ficct_boutique_backend_g.Models.{Uuid, Order}
use ficct_boutique_backend_g.Store.{Db, Env, Outcome, ok, err, IsOk}
use ficct_boutique_backend_g.SalesService.Code.{order_code}
use ficct_boutique_backend_g.SalesService.Confirm.{confirm_sale-eq-ok, stocked_frame}
use ficct_boutique_backend_g.SalesService.{ConfirmSaleResult, confirm_sale}

abbrev pub has_code : String → List Order → Bool
has_code code orders = any_where (λ o. str_eq o.code code) orders

-- A confirmation whose code some order already has does not succeed, be the sale pending and the
-- stock there: the code is drawn once, from ten thousand for each day, and not drawn again.
pub confirm_sale_code_taken :
    (env : Env) (url : String) (sale : Uuid) (db : Db)
    → has_code (order_code env.date env.random_id) db.orders ≡ true
    → ¬ IsOk (confirm_sale env url sale db)
confirm_sale_code_taken env url sale db used = go (confirm_sale env url sale db) refl
  where
    impossible : (r : ConfirmSaleResult) (w : Db) → confirm_sale env url sale db ≡ ok r w → ⊥
    impossible r w e =
        let code = order_code env.date env.random_id in
        let (s, found, t) = confirm_sale-eq-ok env url sale db w r e in
        cc (
          sym used
          ∙ (ap (λ (d : Db). has_code code d.orders)
                (sym (stocked_frame env url sale db w r s found t))
              ∙ (ap (λ (d : Db). has_code code d.orders) (sym t.confirms) ∙ t.new_code)))

    go : (o : Outcome ConfirmSaleResult) → confirm_sale env url sale db ≡ o → ¬ IsOk o
    go (ok r w) e = λ _. impossible r w e
    go (err x w) e = λ h. h
