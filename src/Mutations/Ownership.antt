-- ===== src/Mutations/Ownership.antt =====
-- Who may make and confirm which sale: createSale and confirmSale of graph/mutations.go.
use ficct_boutique_backend_g.Base.{
  ◌≡◌, ◌⊎◌, find_where, refl, ◌∙◌, sym, ap, subst, true, false, Bool, String, Option, none, some,
  List, ◌==◌, inl, inr, if◌then◌else◌, arith, Bool-cases, ==_iff,
}
use ficct_boutique_backend_g.Float.{Float64Ops}
use ficct_boutique_backend_g.Models.{Uuid, Sale, SaleItem, Order}
use ficct_boutique_backend_g.Store.{Db, Error, Env, Outcome, ok, err, after, IsOk}
use ficct_boutique_backend_g.Store.Laws.{>>=-eq-ok, ok-injective}
use ficct_boutique_backend_g.Store.Atomic.{IsReadOnly, IsAtomic, or_fail-IsReadOnly, >>=-IsAtomic}
use ficct_boutique_backend_g.Authz.{
  Claims, Context, check, require_auth, is_admin_or_staff, subject_uuid,
}
use ficct_boutique_backend_g.SalesRepo.{owner_user_id, owner_of_sale}
use ficct_boutique_backend_g.SalesService.Create.{create_sale-Created}
use ficct_boutique_backend_g.SalesService.{
  CreateSaleInput, create_sale, confirm_sale, ConfirmSaleResult,
}
use ficct_boutique_backend_g.SalesService.Buyer.{IsBoughtBy, create_sale-IsBoughtBy}
use ficct_boutique_backend_g.SalesService.Refuse.{confirm_sale_atomic}
use ficct_boutique_backend_g.Mutations.Selling.{
  CreateSaleArgs, sale_input, create_sale_mutation, owner_check, check_subject, order_answer,
  check_owner, confirm_sale_mutation,
}

check-IsReadOnly : (o : Option Error) → IsReadOnly (check o)
check-IsReadOnly none db = refl
check-IsReadOnly (some e) db = refl

owner_user_id-frame : (sale : Uuid) (db : Db) → after (owner_user_id sale db) ≡ db
unfolding owner_user_id
owner_user_id-frame sale db =
    or_fail-IsReadOnly Error.not_found
      (λ d. owner_of_sale d.customers (find_where (λ s. s.id == sale) d.sales)) db

order_answer-IsAtomic :
    (env : Env) (url : String) (sale : Uuid)
    → env.lost ≡ false
    → IsAtomic (λ db. order_answer (confirm_sale env url sale db))
order_answer-IsAtomic env url sale kept db failed = go (confirm_sale env url sale db) refl failed
  where
    go :
        (o : Outcome ConfirmSaleResult)
        → confirm_sale env url sale db ≡ o
        → ¬ IsOk (order_answer o)
        → after (order_answer o) ≡ db
    go (ok r w) e bad = absurd (bad tt)
    go (err x w) e bad =
        ap after (sym e)
        ∙ confirm_sale_atomic env url sale db kept (subst (λ o. ¬ IsOk o) (sym e) (λ k. k))

module _ (parse : String → Option Uuid) where
  -- A caller who is neither admin nor staff buys for themselves: the sale is linked to their own
  -- customer profile and has no cashier, whatever customer they name.
  pub create_sale_mutation-IsBoughtBy :
      (F : Float64Ops) (env : Env) (claims : Claims) (args : CreateSaleArgs) (user : Uuid)
      (db w : Db) (s : Sale) (rows : List SaleItem)
      → is_admin_or_staff (some claims) ≡ false
      → parse claims.subject ≡ some user
      → create_sale_mutation parse F env (some claims) args db ≡ ok (s, rows) w
      → IsBoughtBy user s w × (s.cashier_id ≡ none)
  unfolding create_sale_mutation require_auth subject_uuid
  create_sale_mutation-IsBoughtBy F env claims args user db w s rows role subject h =
      let input : CreateSaleInput = record {
        customer_id = none;
        customer_user_id = some user;
        branch_id = args.branch_id;
        cashier_id = none;
        items = args.items;
      } in
      let made : create_sale F env input db ≡ ok (s, rows) w =
        ap (λ i. create_sale F env i db)
          (sym (
            ap (λ b. sale_input b (parse claims.subject) args) role
            ∙ ap (λ o. sale_input false o args) subject))
        ∙ h in
      let created = create_sale-Created F env input db w s rows made in
      (
        create_sale-IsBoughtBy F env user args.branch_id none args.items db w s rows made,
        created.amounts.sold_by,
      )

  -- The call is let through to the service for staff and for the owner of the sale only.
  abbrev pub MayConfirm : Context → Uuid → Db → Type 0
  MayConfirm ctx sale db =
      (is_admin_or_staff ctx ≡ true)
      ⊎ ((uid : Uuid) × (subject_uuid parse ctx ≡ some uid) × (owner_user_id sale db ≡ ok uid db))

  check_owner-eq-ok :
      (ctx : Context) (sale : Uuid) (db w : Db)
      → check_owner parse ctx sale db ≡ ok tt w
      → MayConfirm ctx sale db × (w ≡ db)
  unfolding check_owner
  check_owner-eq-ok ctx sale db w h =
      go (is_admin_or_staff ctx) (subject_uuid parse ctx) (owner_user_id sale db) refl refl refl h
    where
      go :
          (b : Bool) (u : Option Uuid) (owner : Outcome Uuid)
          → is_admin_or_staff ctx ≡ b
          → subject_uuid parse ctx ≡ u
          → owner_user_id sale db ≡ owner
          → Path (Outcome (Unit {0})) (if b then ok tt db else check_subject u sale db) (ok tt w)
          → MayConfirm ctx sale db × (w ≡ db)
      go true u owner staff is_u is_owner k = (inl staff, sym (ok-injective k).1)
      go false none owner staff is_u is_owner k = absurd (cc)
      go false (some uid) (err e v) staff is_u is_owner k = absurd (ground arith)
      go false (some uid) (ok x v) staff is_u is_owner k =
          let v_is = ap after (sym is_owner) ∙ owner_user_id-frame sale db in
          elim (Bool-cases (x == uid)) [
            | inl mine ↦ (
              inr (
                uid,
                is_u,
                is_owner ∙ (ap (λ i. ok i v) ((==_iff x uid).0 mine) ∙ ap (ok uid) v_is),
              ),
              ground arith,
            )
            | inr other ↦ absurd (ground arith)
          ]

  check_owner-IsReadOnly : (ctx : Context) (sale : Uuid) → IsReadOnly (check_owner parse ctx sale)
  unfolding check_owner
  check_owner-IsReadOnly ctx sale db = go (is_admin_or_staff ctx) (subject_uuid parse ctx)
    where
      owned : (uid : Uuid) (o : Outcome Uuid) → after (owner_check uid o) ≡ after o
      owned uid (err e v) = refl
      owned uid (ok x v) = elim (Bool-cases (x == uid)) [
        | inl mine ↦ rw mine refl
        | inr other ↦ rw other refl
      ]

      go :
          (b : Bool) (u : Option Uuid)
          → after {A = Unit {0}} (if b then ok tt db else check_subject u sale db) ≡ db
      go true u = refl
      go false none = refl
      go false (some uid) = owned uid (owner_user_id sale db) ∙ owner_user_id-frame sale db

  -- Only the staff and the customer whose sale it is can confirm it.
  pub confirm_sale_mutation-MayConfirm :
      (env : Env) (url : String) (ctx : Context) (sale : Uuid) (db w : Db) (o : Order)
      → confirm_sale_mutation parse env url ctx sale db ≡ ok o w
      → MayConfirm ctx sale db
  unfolding confirm_sale_mutation
  confirm_sale_mutation-MayConfirm env url ctx sale db w o h =
      let (_, v, h1, k1) = >>=-eq-ok (check (require_auth ctx)) _ db h in
      let (_, x, h2, k2) = >>=-eq-ok (check_owner parse ctx sale) _ v k1 in
      let same = sym (ap after h1) ∙ check-IsReadOnly (require_auth ctx) db in
      subst (MayConfirm ctx sale) same (check_owner-eq-ok ctx sale v x h2).0

  -- A confirmSale that fails, for whatever reason but a commit whose answer is lost, leaves the
  -- database as it was.
  pub confirm_sale_mutation-IsAtomic :
      (env : Env) (url : String) (ctx : Context) (sale : Uuid)
      → env.lost ≡ false
      → IsAtomic (confirm_sale_mutation parse env url ctx sale)
  unfolding confirm_sale_mutation
  confirm_sale_mutation-IsAtomic env url ctx sale kept =
      >>=-IsAtomic (check (require_auth ctx)) _ (check-IsReadOnly (require_auth ctx)) (λ _.
        >>=-IsAtomic (check_owner parse ctx sale) _ (check_owner-IsReadOnly ctx sale)
          (λ _. order_answer-IsAtomic env url sale kept))
