-- ===== src/Queries/Visible.antt =====
-- What callers see of the products and of the orders: graph/queries.go.
use ficct_boutique_backend_g.Base.{
  ℕ, ◌+◌, ◌≡◌, ◌∙◌, refl, sym, ap, subst, Bool, true, false, String, Option, none, some, List, [],
  ◌∷◌, ◌++◌, ◌&&◌, ◌||◌, not, All, any_where, select_where, order_by, any-take, any-drop,
  any-order_by, any-select_where, All-not_any, arith, take-pages, str_eq, Bool-cases, inl, inr,
}
use ficct_boutique_backend_g.Base.Int.{ℤ, pos, pos_part, ltb_ℤ}
use ficct_boutique_backend_g.Models.{Uuid, Product, Order}
use ficct_boutique_backend_g.Store.{Db, Error, ok, after, ◌>>◌, fail_if, page, check_page}
use ficct_boutique_backend_g.Store.Laws.{>>=-eq-ok, >>-ok, ok-injective}
use ficct_boutique_backend_g.Store.Atomic.{IsReadOnly, fail_if-IsReadOnly, >>=-IsReadOnly}
use ficct_boutique_backend_g.Authz.{
  Context, check, require_auth, require_admin_or_staff, is_admin_or_staff, subject_uuid,
}
use ficct_boutique_backend_g.CatalogRepo.{given, listed_products, list_products}
use ficct_boutique_backend_g.OrderRepo.{is_order_of, has_order_status, newest_orders, list_by_user}
use ficct_boutique_backend_g.Queries.{
  number_or, asks_for, is_let_through, may_include, products, orders_of_caller, orders,
}

module _ {ℓ} {A : Type ℓ} where
  -- The rows of a page of a sorted selection pass its test.
  page-All :
      (p q : A → Bool) (before : A → A → Bool) (limit offset : ℤ) (rows : List A)
      → any_where (λ x. not (p x) && q x) rows ≡ false
      → All (λ x. p x ≡ true) (page limit offset (order_by before (select_where q rows)))
  page-All p q before limit offset rows h = All-not_any p _ (
      any-take (λ x. not (p x)) (pos_part limit) _
        (any-drop (λ x. not (p x)) (pos_part offset) _
          (any-order_by (λ x. not (p x)) before _
            ∙ (any-select_where (λ x. not (p x)) q rows ∙ h))))

  never_both :
      (p r : A → Bool) (rows : List A) → any_where (λ x. not (p x) && (p x && r x)) rows ≡ false
  never_both p r [] = refl
  never_both p r (x ∷ xs) = ground (arith, never_both p r xs)

check_page-IsReadOnly : (limit offset : ℤ) → IsReadOnly (check_page limit offset)
check_page-IsReadOnly limit offset =
    >>=-IsReadOnly (fail_if (ltb_ℤ limit (pos 0)) Error.negative_limit) _ (fail_if-IsReadOnly _ _)
      (λ _. fail_if-IsReadOnly (ltb_ℤ offset (pos 0)) Error.negative_offset)

check-frame : (o : Option Error) (db v : Db) → check o db ≡ ok tt v → v ≡ db
check-frame none db v h = sym (ok-injective h).1
check-frame (some e) db v h = absurd (cc)

-- A page that was let through is the page of the rows.
page-eq-ok :
    {A : Type 0} (limit offset : ℤ) (rows : Db → List A) (db w : Db) (out : List A)
    → (check_page limit offset >> (λ d. ok (page limit offset (rows d)) d)) db ≡ ok out w
    → (out ≡ page limit offset (rows db)) × (w ≡ db)
page-eq-ok limit offset rows db w out h =
    let (_, v, h1, k) = >>=-eq-ok (check_page limit offset) _ db h in
    let same = sym (ap after h1) ∙ check_page-IsReadOnly limit offset db in
    let (out_is, w_is) = ok-injective k in
    (sym out_is ∙ ap (λ d. page limit offset (rows d)) same, sym w_is ∙ same)

module _ (parse : String → Option Uuid) where
  -- A caller who is neither admin nor staff sees orders of their own only: every order that the
  -- query answers belongs to a sale of the caller's customer profile.
  pub orders-All :
      (ctx : Context) (user : Uuid) (status : Option String) (limit offset : Option ℤ) (db w : Db)
      (rows : List Order)
      → is_admin_or_staff ctx ≡ false
      → subject_uuid parse ctx ≡ some user
      → orders parse ctx status limit offset db ≡ ok rows w
      → All (λ o. is_order_of user db o ≡ true) rows
  unfolding orders list_by_user
  orders-All ctx user status limit offset db w rows role subject h =
      let (_, v, h1, k) = >>=-eq-ok (check (require_auth ctx)) _ db h in
      let same = check-frame (require_auth ctx) db v h1 in
      let own = ap2_caller role subject (number_or (pos 50) limit) (number_or (pos 0) offset) v in
      let (rows_are, _) =
        page-eq-ok (number_or (pos 50) limit) (number_or (pos 0) offset)
          (λ d.
            newest_orders
              (select_where (λ o. is_order_of user d o && has_order_status status o) d.orders))
          v w rows (sym own ∙ k) in
      subst (λ d. All (λ o. is_order_of user d o ≡ true) rows) same
        (subst (All (λ o. is_order_of user v o ≡ true)) (sym rows_are) (
          page-All (is_order_of user v) _ _ (number_or (pos 50) limit) (number_or (pos 0) offset)
            v.orders (never_both (is_order_of user v) (has_order_status status) v.orders)))
    where
      ap2_caller :
          is_admin_or_staff ctx ≡ false
          → subject_uuid parse ctx ≡ some user
          → (l o : ℤ) (d : Db)
          → orders_of_caller parse (is_admin_or_staff ctx) (subject_uuid parse ctx) status l o d
            ≡ list_by_user user status l o d
      ap2_caller r s l o d =
          ap (λ b. orders_of_caller parse b (subject_uuid parse ctx) status l o d) r
          ∙ ap (λ u. orders_of_caller parse false u status l o d) s

-- No inactive product passes the test of the list, unless it was asked for them.
never_hidden :
    (include : Bool) (r : Product → Bool) (rows : List Product)
    → include ≡ false
    → any_where (λ p. not p.is_active && ((include || p.is_active) && r p)) rows ≡ false
never_hidden include r [] h = refl
never_hidden include r (x ∷ xs) h = ground (arith, never_hidden include r xs h)

may_include-false :
    (ctx : Context) (include : Option Bool)
    → is_let_through (require_admin_or_staff ctx) ≡ false
    → may_include ctx include ≡ false
may_include-false ctx include role = elim (Bool-cases (asks_for include)) [
  | inl asked ↦ rw asked role
  | inr never ↦ rw never refl
]

-- A caller who is neither admin nor staff, or not logged in, sees active products only, whatever
-- includeInactive says.
pub products-All :
    (ilike : String → String → Bool) (ctx : Context) (category search : Option String)
    (include : Option Bool) (limit offset : Option ℤ) (db w : Db) (rows : List Product)
    → is_let_through (require_admin_or_staff ctx) ≡ false
    → products ilike ctx category search include limit offset db ≡ ok rows w
    → All (λ p. p.is_active ≡ true) rows
unfolding products list_products listed_products
products-All ilike ctx category search include limit offset db w rows role h =
    let l = number_or (pos 50) limit in
    let o = number_or (pos 0) offset in
    let (rows_are, _) =
      page-eq-ok l o (listed_products ilike category search (may_include ctx include)) db w rows
        h in
    subst (All (λ p. p.is_active ≡ true)) (sym rows_are) (
      page-All (λ p. p.is_active) _ _ l o db.products
        (never_hidden (may_include ctx include)
          (λ p.
            given category (str_eq p.category)
            && given search (λ s. ilike p.name s || ilike p.sku s))
          db.products (may_include-false ctx include role)))

check_page-ok : (n o : ℕ) (db : Db) → check_page (pos n) (pos o) db ≡ ok tt db
check_page-ok n o db = rw (not_negative n) (rw (not_negative o) refl)
  where
    not_negative : (k : ℕ) → ltb_ℤ (pos k) (pos 0) ≡ false
    not_negative k = ground arith

list_products-ok :
    (ilike : String → String → Bool) (category search : Option String) (include_inactive : Bool)
    (n offset : ℕ) (db : Db)
    → list_products ilike category search include_inactive (pos n) (pos offset) db
      ≡ ok
          (page (pos n) (pos offset) (listed_products ilike category search include_inactive db))
          db
unfolding list_products
list_products-ok ilike category search include_inactive n offset db =
    >>-ok (check_page (pos n) (pos offset))
      (λ d.
        ok (page (pos n) (pos offset) (listed_products ilike category search include_inactive d)) d)
      db (check_page-ok n offset db)

-- Pages of the product list fit together: a page and the one that follows it are, in this order,
-- the page of both lengths, and none of them fails where its numbers are not negative.
pub list_products-pages :
    (ilike : String → String → Bool) (category search : Option String) (include_inactive : Bool)
    (n m offset : ℕ) (db : Db)
    → (first second both : List Product) × (list_products ilike category search include_inactive
          (pos n)
          (pos offset)
          db
        ≡ ok first db)
      × (list_products ilike category search include_inactive (pos m) (pos (offset + n)) db
          ≡ ok second db)
      × (list_products ilike category search include_inactive (pos (n + m)) (pos offset) db
          ≡ ok both db)
      × (first ++ second ≡ both)
list_products-pages ilike category search include_inactive n m offset db = (
  _,
  _,
  _,
  list_products-ok ilike category search include_inactive n offset db,
  list_products-ok ilike category search include_inactive m (offset + n) db,
  list_products-ok ilike category search include_inactive (n + m) offset db,
  take-pages n m offset (listed_products ilike category search include_inactive db),
)
