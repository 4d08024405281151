-- ===== src/Reports/Popular.antt =====
-- The report on popular products: internal/repository/reports.go and internal/service/reports_service.go.
use Prim.Native.Nat.{min}
use ficct_boutique_backend_g.Base.{
  Bool, Option, none, some, ◌&&◌, ◌⊎◌, inl, inr, Bool-cases, if◌then◌else◌, find_where,
  select_where, length-take, ◌≡◌, ◌∙◌, refl, sym, ap, subst, true, false, ◌||◌, any_where,
  any-order_by, any-distinct, List, [], ◌∷◌, ◌++◌, ◌==◌, map, length, take, drop, take-append-drop,
  length-order_by, length-map, distinct, IsOrdered, order_by-IsOrdered, order_by-All, All, arith,
}
use ficct_boutique_backend_g.Base.Int.{ℤ, pos, pos_part, ◌+ℤ◌, ◌≤ℤ◌, leb_ℤ, ltb_ℤ}
use ficct_boutique_backend_g.Models.{Uuid, Product, ProductVariant, Sale, SaleItem, SaleStatus}
use ficct_boutique_backend_g.Store.{Db, ok}
use ficct_boutique_backend_g.Reports.{
  Sql, PopularProductRow, SoldItem, popular_row, popular_rows, popular_products, more_units,
  clamped, sold_items, sold_items_of, is_of_confirmed, product_of, with_product, units,
}

-- The sale of an item is confirmed.
abbrev pub was_confirmed : Option Sale → Bool
was_confirmed none = false
was_confirmed (some s) = elim s.status [
  | SaleStatus.pending ↦ false
  | SaleStatus.confirmed ↦ true
  | SaleStatus.cancelled ↦ false
]

abbrev pub is_product : Uuid → Option Product → Bool
is_product id none = false
is_product id (some p) = p.id == id

-- The variant of an item is one of the product.
abbrev pub is_variant_of : Db → Uuid → Option ProductVariant → Bool
is_variant_of db id none = false
is_variant_of db id (some v) = is_product id (find_where (λ p. p.id == v.product_id) db.products)

-- The item counts for the product.
abbrev pub counts_for : Db → Uuid → SaleItem → Bool
counts_for db id it =
    was_confirmed (find_where (λ s. s.id == it.sale_id) db.sales)
    && is_variant_of db id (find_where (λ v. v.id == it.variant_id) db.variants)

abbrev pub total_units : List SaleItem → ℤ
total_units [] = pos 0
total_units (it ∷ items) = it.quantity +ℤ total_units items

-- The items of a product among the sold ones.
abbrev of_product : Uuid → List SoldItem → List SaleItem
of_product id sold = map (λ x. x.item) (select_where (λ x. x.product.id == id) sold)

product_same :
    (db : Db) (id : Uuid) (o : Option ProductVariant)
    → is_product id (product_of db o) ≡ is_variant_of db id o
product_same db id none = refl
product_same db id (some v) = refl

of_product-with :
    (id : Uuid) (it : SaleItem) (o : Option Product) (rest : List SoldItem)
    → of_product id (with_product it o rest)
      ≡ (if is_product id o then it ∷ of_product id rest else of_product id rest)
of_product-with id it none rest = refl
of_product-with id it (some p) rest = elim (Bool-cases (p.id == id)) [
  | inl hit ↦ rw hit refl
  | inr miss ↦ rw miss refl
]

of_product-counts :
    (db : Db) (id : Uuid) (items : List SaleItem)
    → of_product id (sold_items_of db (select_where (is_of_confirmed db) items))
      ≡ select_where (counts_for db id) items
of_product-counts db id [] = refl
of_product-counts db id (it ∷ items) =
    let variant = find_where (λ v. v.id == it.variant_id) db.variants in
    elim (Bool-cases (is_of_confirmed db it)) [
      | inr other ↦ rw other (of_product-counts db id items)
      | inl done ↦ rw done (
          of_product-with id it (product_of db variant)
            (sold_items_of db (select_where (is_of_confirmed db) items))
          ∙ (ap
                (λ b.
                  if b
                  then it
                    ∷ of_product id (sold_items_of db (select_where (is_of_confirmed db) items))
                  else of_product id (sold_items_of db (select_where (is_of_confirmed db) items)))
                (product_same db id variant)
              ∙ ap (λ l. if is_variant_of db id variant then it ∷ l else l)
                  (of_product-counts db id items)))
    ]

units-total : (sold : List SoldItem) → units sold ≡ total_units (map (λ x. x.item) sold)
units-total [] = refl
units-total (x ∷ sold) = ap (λ n. x.item.quantity +ℤ n) (units-total sold)

amounts-same :
    (sold : List SoldItem)
    → map (λ x. x.item.line_total) sold ≡ map (λ it. it.line_total) (map (λ x. x.item) sold)
amounts-same [] = refl
amounts-same (x ∷ sold) = ap (λ l. x.item.line_total ∷ l) (amounts-same sold)

-- A list is not empty.
abbrev pub is_some_item : List SaleItem → Bool
is_some_item [] = false
is_some_item (it ∷ items) = true

any-of_product :
    (id : Uuid) (sold : List SoldItem)
    → any_where (λ x. x.product.id == id) sold ≡ is_some_item (of_product id sold)
any-of_product id [] = refl
any-of_product id (x ∷ sold) = elim (Bool-cases (x.product.id == id)) [
  | inl hit ↦ rw hit refl
  | inr miss ↦ rw miss (any-of_product id sold)
]

-- How many rows are asked for: from 1 to 100, and else 10.
abbrev pub IsShown : ℤ → ℤ → Type 0
IsShown asked n =
    ((pos 1 ≤ℤ asked) × (asked ≤ℤ pos 100) × (n ≡ asked))
    ⊎ (¬ ((pos 1 ≤ℤ asked) × (asked ≤ℤ pos 100)) × (n ≡ pos 10))

clamped-IsShown : (asked : ℤ) → IsShown asked (clamped (pos 100) (pos 10) asked)
clamped-IsShown asked = elim (Bool-cases (leb_ℤ asked (pos 0) || ltb_ℤ (pos 100) asked)) [
  | inl outside ↦ rw outside (inr ((λ h. ground (arith, outside, h.0, h.1)), refl))
  | inr inside ↦ rw inside (inl (ground (arith, inside), ground (arith, inside), refl))
]

module _ (Q : Sql) where
  more_units_total : (x y : PopularProductRow) → more_units x y ≡ false → more_units y x ≡ true
  more_units_total x y h = ground arith

  more_units_trans :
      (x y z : PopularProductRow)
      → more_units x y ≡ true
      → more_units y z ≡ true
      → more_units x z ≡ true
  more_units_trans x y z h k = ground arith

  any-rows :
      (sold : List SoldItem) (id : Uuid) (ids : List Uuid)
      → any_where (λ r. r.product_id == id) (map (popular_row Q sold) ids)
        ≡ any_where (λ i. i == id) ids
  any-rows sold id [] = refl
  any-rows sold id (i ∷ ids) = ap (λ b. (i == id) || b) (any-rows sold id ids)

  any-products :
      (id : Uuid) (sold : List SoldItem)
      → any_where (λ i. i == id) (map (λ x. x.product.id) sold)
        ≡ any_where (λ x. x.product.id == id) sold
  any-products id [] = refl
  any-products id (x ∷ sold) = ap (λ b. (x.product.id == id) || b) (any-products id sold)

  -- The figures of a row are those of the items that count for its product.
  abbrev pub IsCounted : Db → PopularProductRow → Type 0
  IsCounted db r =
      let items = select_where (counts_for db r.product_id) db.sale_items in
      (r.units_sold ≡ total_units items) × (r.revenue ≡ Q.sum (map (λ it. it.line_total) items))

  row-IsCounted : (db : Db) (id : Uuid) → IsCounted db (popular_row Q (sold_items db) id)
  unfolding sold_items
  row-IsCounted db id =
      let rows = select_where (λ x. x.product.id == id) (sold_items db) in
      let counted = of_product-counts db id db.sale_items in
      (
        units-total rows ∙ ap total_units counted,
        ap Q.sum (amounts-same rows ∙ ap (map (λ it. it.line_total)) counted),
      )

  rows-IsCounted :
      (db : Db) (ids : List Uuid) → All (IsCounted db) (map (popular_row Q (sold_items db)) ids)
  rows-IsCounted db [] = tt
  rows-IsCounted db (id ∷ ids) = (row-IsCounted db id, rows-IsCounted db ids)

  any-counts :
      (db : Db) (id : Uuid)
      → any_where (λ x. x.product.id == id) (sold_items db)
        ≡ is_some_item (select_where (counts_for db id) db.sale_items)
  unfolding sold_items
  any-counts db id =
      any-of_product id (sold_items db) ∙ ap is_some_item (of_product-counts db id db.sale_items)

  -- The report always answers, and writes nothing. Its rows are the first of a list in which no
  -- product has sold fewer units than one that follows it, as many of them as are asked for, from 1 to
  -- 100, and else 10, or all if there are fewer. The list has a row for each product of which a
  -- confirmed sale has an item, and for no other, in as many rows as there are such products; the units
  -- of a row are the sum of the quantities of the items of the product in confirmed sales, and its
  -- revenue is the sum of their line totals.
  pub popular_products-IsOrdered :
      (limit : ℤ) (db : Db)
      → (rows rest : List PopularProductRow) × (n : ℤ) × (popular_products Q limit db ≡ ok rows db)
        × IsShown limit n
        × (length rows ≡ min (pos_part n) (length (rows ++ rest)))
        × IsOrdered (λ x y. leb_ℤ y.units_sold x.units_sold) (rows ++ rest)
        × All (IsCounted db) (rows ++ rest)
        × (length (rows ++ rest) ≡ length (distinct (map (λ x. x.product.id) (sold_items db))))
        × ((id : Uuid)
            → any_where (λ r. r.product_id == id) (rows ++ rest)
              ≡ is_some_item (select_where (counts_for db id) db.sale_items))
  unfolding popular_products
  popular_products-IsOrdered limit db =
      let shown = clamped (pos 100) (pos 10) limit in
      let n = pos_part shown in
      let sold = sold_items db in
      let ids = distinct (map (λ x. x.product.id) sold) in
      let all = popular_rows Q sold in
      let whole = sym (take-append-drop n all) in
      (
        take n all,
        drop n all,
        shown,
        refl,
        clamped-IsShown limit,
        length-take n all ∙ ap (λ l. min n (length l)) whole,
        subst (IsOrdered more_units) whole (
            order_by-IsOrdered more_units more_units_total more_units_trans
              (map (popular_row Q sold) ids)),
        subst (All (IsCounted db)) whole (
            order_by-All (IsCounted db) more_units (map (popular_row Q sold) ids)
              (rows-IsCounted db ids)),
        ap length (sym whole)
            ∙ (length-order_by more_units (map (popular_row Q sold) ids)
                ∙ length-map ids (popular_row Q sold)),
        λ id.
            ap (any_where (λ r. r.product_id == id)) (sym whole)
            ∙ (any-order_by (λ r. r.product_id == id) more_units (map (popular_row Q sold) ids)
                ∙ (any-rows sold id ids
                    ∙ (any-distinct id (map (λ x. x.product.id) sold)
                        ∙ (any-products id sold ∙ any-counts db id)))),
      )
