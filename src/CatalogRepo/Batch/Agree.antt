-- ===== src/CatalogRepo/Batch/Agree.antt =====
-- The reads of several keys at once against the reads of one key.
use ficct_boutique_backend_g.Base.{
  ℕ, ◌≡◌, ◌∙◌, refl, sym, ap, String, Bool, true, false, List, [], ◌∷◌, ◌==◌, ltb, ==_iff,
  if◌then◌else◌, select_where, order_by, group_by, group_by-select, select-order_by, arith,
  Bool-cases, inl, inr,
}
use ficct_boutique_backend_g.Models.{Uuid, ProductVariant, Inventory}
use ficct_boutique_backend_g.Store.{Db, ok}
use ficct_boutique_backend_g.CatalogRepo.{size_color_before, variants_by_product}
use ficct_boutique_backend_g.CatalogRepo.Batch.{
  is_any_of, product_size_color_before, variants_of_products, variants_by_product_ids,
  by_variant_ids,
}

module _ {ℓ} {A : Type ℓ} (key : A → ℕ) where
  -- Of the rows with any of some keys, those with one of them.
  select_any :
      (ids : List ℕ) (id : ℕ) (rows : List A)
      → is_any_of ids id ≡ true
      → select_where (λ x. key x == id) (select_where (λ x. is_any_of ids (key x)) rows)
        ≡ select_where (λ x. key x == id) rows
  select_any ids id [] h = refl
  select_any ids id (x ∷ xs) h = elim (Bool-cases (key x == id)) [
    | inl hit ↦
        rw (ap (is_any_of ids) ((==_iff (key x) id).0 hit) ∙ h)
          (rw hit (ap (λ l. x ∷ l) (select_any ids id xs h)))
    | inr miss ↦ elim (Bool-cases (is_any_of ids (key x))) [
      | inl among ↦ rw among (rw miss (select_any ids id xs h))
      | inr other ↦ rw other (rw miss (select_any ids id xs h))
    ]
  ]

-- A collation: a total order on texts, up to texts that it does not tell apart.
pub record IsCollation (collate : String → String → Bool) : Type 0 where
  pub trans : (a b c : String) → collate a b ≡ true → collate b c ≡ true → collate a c ≡ true
  pub total : (a b : String) → collate a b ≡ false → collate b a ≡ true

-- The order by a number first, and where the numbers are equal by a second order.
abbrev lex : ℕ → ℕ → Bool → Bool
lex a b p = if ltb a b then true else if ltb b a then false else p

lex_trans :
    (a b c : ℕ) (p q r : Bool)
    → (p ≡ true → q ≡ true → r ≡ true)
    → lex a b p ≡ true
    → lex b c q ≡ true
    → lex a c r ≡ true
lex_trans a b c true true r imp h k = rw (imp refl refl) (ground arith)
lex_trans a b c true false r imp h k = ground arith
lex_trans a b c false q r imp h k = ground arith

lex_total : (a b : ℕ) (p q : Bool) → (p ≡ false → q ≡ true) → lex a b p ≡ false → lex b a q ≡ true
lex_total a b true q imp h = ground arith
lex_total a b false q imp h = rw (imp refl) (ground arith)

module _ (collate : String → String → Bool) (laws : IsCollation collate) where
  size_color_trans :
      (x y z : ProductVariant)
      → size_color_before collate x y ≡ true
      → size_color_before collate y z ≡ true
      → size_color_before collate x z ≡ true
  size_color_trans x y z h k = ground (
    arith,
    laws.trans x.size y.size z.size,
    laws.trans z.size x.size y.size,
    laws.trans y.size z.size x.size,
    laws.trans x.color y.color z.color,
  )

  size_color_total :
      (x y : ProductVariant)
      → size_color_before collate x y ≡ false
      → size_color_before collate y x ≡ true
  size_color_total x y h =
      ground (arith, laws.total x.size y.size, laws.total y.size x.size, laws.total x.color y.color)

  product_trans :
      (x y z : ProductVariant)
      → product_size_color_before collate x y ≡ true
      → product_size_color_before collate y z ≡ true
      → product_size_color_before collate x z ≡ true
  product_trans x y z h k =
      lex_trans x.product_id y.product_id z.product_id (size_color_before collate x y)
        (size_color_before collate y z) (size_color_before collate x z) (size_color_trans x y z) h k

  product_total :
      (x y : ProductVariant)
      → product_size_color_before collate x y ≡ false
      → product_size_color_before collate y x ≡ true
  product_total x y h =
      lex_total x.product_id y.product_id (size_color_before collate x y)
        (size_color_before collate y x) (size_color_total x y) h

  same_product :
      (id : Uuid) (x y : ProductVariant)
      → (x.product_id == id) ≡ true
      → (y.product_id == id) ≡ true
      → product_size_color_before collate x y ≡ size_color_before collate x y
  same_product id x y h k = ground arith

  -- The batch read agrees with the reads of single products: for each product among those that are
  -- asked for it has the list that VariantsByProduct gives, in the same order, whatever the order of
  -- the identifiers; the database's order of texts is total and transitive.
  pub variants_by_product_ids-agrees :
      (ids : List Uuid) (id : Uuid) (db : Db)
      → is_any_of ids id ≡ true
      → (groups : Uuid → List ProductVariant) × (variants_by_product_ids collate ids db
          ≡ ok groups db)
        × (variants_by_product collate id db ≡ ok (groups id) db)
  unfolding variants_by_product_ids variants_by_product
  variants_by_product_ids-agrees [] id db h = absurd (cc)
  variants_by_product_ids-agrees (i ∷ ids) id db h = (
    group_by (λ v. v.product_id) (variants_of_products collate (i ∷ ids) db),
    refl,
    ap (λ l. ok l db)
        (sym (
          group_by-select (λ v. v.product_id) (variants_of_products collate (i ∷ ids) db) id
          ∙ (select-order_by (λ v. v.product_id == id) (product_size_color_before collate)
                (size_color_before collate) product_trans product_total (same_product id)
                (select_where (λ v. is_any_of (i ∷ ids) v.product_id) db.variants)
              ∙ ap (order_by (size_color_before collate))
                  (select_any (λ v. v.product_id) (i ∷ ids) id db.variants h)))),
  )

-- The stock of a variant in the batch read is its rows of the inventory.
pub by_variant_ids-select :
    (ids : List Uuid) (id : Uuid) (db : Db)
    → is_any_of ids id ≡ true
    → (groups : Uuid → List Inventory) × (by_variant_ids ids db ≡ ok groups db)
      × (groups id ≡ select_where (λ i. i.variant_id == id) db.inventory)
unfolding by_variant_ids
by_variant_ids-select [] id db h = absurd (cc)
by_variant_ids-select (i ∷ ids) id db h = (
  group_by (λ r. r.variant_id) (select_where (λ r. is_any_of (i ∷ ids) r.variant_id) db.inventory),
  refl,
  group_by-select (λ r. r.variant_id)
        (select_where (λ r. is_any_of (i ∷ ids) r.variant_id) db.inventory) id
      ∙ select_any (λ r. r.variant_id) (i ∷ ids) id db.inventory h,
)
