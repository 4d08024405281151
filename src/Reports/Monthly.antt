-- ===== src/Reports/Monthly.antt =====
-- The monthly report counts every confirmed sale of its window once.
use ficct_boutique_backend_g.Base.{
  ℕ, ◌+◌, ◌≡◌, ◌∙◌, refl, sym, ap, subst, true, false, List, [], ◌∷◌, ◌==◌, leb, ltb, select_where,
  order_by, any-order_by, map, length, sum_counts, sum_counts-distinct, IsOrdered,
  distinct-IsOrdered, order_by-IsOrdered, arith,
}
use ficct_boutique_backend_g.Base.Int.{ℤ, pos, ◌≤ℤ◌}
use ficct_boutique_backend_g.Models.{Timestamp, Sale}
use ficct_boutique_backend_g.Store.{Db, Env, ok}
use ficct_boutique_backend_g.Reports.{
  Sql, MonthlySaleRow, confirmed_since, month_row, months_of, monthly_rows, monthly_sales, clamped,
}

-- The number of sales of all rows.
abbrev pub all_counts : List MonthlySaleRow → ℕ
all_counts [] = 0
all_counts (r ∷ rows) = r.sale_count + all_counts rows

module _ (Q : Sql) where
  counts-months :
      (sales : List Sale) (ms : List Timestamp)
      → all_counts (map (month_row Q sales) ms) ≡ sum_counts (λ s. Q.month_of s.created_at) ms sales
  counts-months sales [] = refl
  counts-months sales (m ∷ ms) =
      ap (λ n. length (select_where (λ s. Q.month_of s.created_at == m) sales) + n)
        (counts-months sales ms)

  months-rows :
      (sales : List Sale) (ms : List Timestamp)
      → map (λ (r : MonthlySaleRow). r.month) (map (month_row Q sales) ms) ≡ ms
  months-rows sales [] = refl
  months-rows sales (m ∷ ms) = ap (λ l. m ∷ l) (months-rows sales ms)

  leb_total : (x y : ℕ) → leb x y ≡ false → leb y x ≡ true
  leb_total x y h = ground arith

  leb_trans : (x y z : ℕ) → leb x y ≡ true → leb y z ≡ true → leb x z ≡ true
  leb_trans x y z h k = ground arith

  clamped-above : (x : ℤ) → pos 1 ≤ℤ clamped (pos 60) (pos 12) x
  clamped-above x = ground arith

  clamped-below : (x : ℤ) → clamped (pos 60) (pos 12) x ≤ℤ pos 60
  clamped-below x = ground arith

  -- The monthly report always answers, and writes nothing. Its rows have different months, which
  -- rise, and together they count each confirmed sale since the start of the window once; the window
  -- is of 1 to 60 months, and of 12 if another number is asked for.
  pub monthly_sales-counts :
      (env : Env) (months : ℤ) (db : Db)
      → (rows : List MonthlySaleRow) × (window : ℤ) × (monthly_sales Q env months db ≡ ok rows db)
        × IsOrdered ltb (map (λ (r : MonthlySaleRow). r.month) rows)
        × (all_counts rows ≡ length (confirmed_since Q env.now window db))
        × (window ≡ clamped (pos 60) (pos 12) months)
        × (pos 1 ≤ℤ window)
        × (window ≤ℤ pos 60)
  unfolding monthly_sales
  monthly_sales-counts env months db =
      let window = clamped (pos 60) (pos 12) months in
      let sales = confirmed_since Q env.now window db in
      let keys = map (λ s. Q.month_of s.created_at) sales in
      (
        monthly_rows Q sales,
        window,
        refl,
        subst (IsOrdered ltb) (sym (months-rows sales (months_of Q sales))) (
            distinct-IsOrdered (order_by leb keys)
              (order_by-IsOrdered leb leb_total leb_trans keys)),
        counts-months sales (months_of Q sales)
            ∙ sum_counts-distinct (λ s. Q.month_of s.created_at) sales (order_by leb keys)
                (λ k h. any-order_by (λ x. k == x) leb keys ∙ h),
        refl,
        clamped-above months,
        clamped-below months,
      )
