-- ===== src/Queries/Grid/Paged.antt =====
-- What the grid of the inventory answers: graph/queries.go with internal/repository/inventory.go.
use Prim.Native.Nat.{min}
use ficct_boutique_backend_g.Base.{
  ℕ, ◌-◌, ◌<◌, ◌≡◌, ◌⊎◌, ◌&&◌, take, refl, inl, inr, Bool-cases, ◌∙◌, sym, ap, subst, String, Bool,
  Option, none, some, List, length, drop, map, length-map, length-take, length-drop,
  length-order_by, order_by, arith,
}
use ficct_boutique_backend_g.Base.Int.{ℤ, pos, negsuc, pos_part, ◌≤ℤ◌, leb_ℤ, to_int32}
use ficct_boutique_backend_g.Models.{Inventory}
use ficct_boutique_backend_g.Store.{Db, ok, err, ◌>>=◌, ◌>>◌, pure, gets, check_page, page}
use ficct_boutique_backend_g.Store.Laws.{>>-ok}
use ficct_boutique_backend_g.Authz.{Context, check, require_admin_or_staff}
use ficct_boutique_backend_g.InventoryRepo.Search.{
  InventoryFilter, Joined, found_entries, search_inventory,
}
use ficct_boutique_backend_g.Queries.Grid.{
  FilterArgs, filter_of, page_limit, page_offset, InventoryPage, inventory_entries,
}

page_limit_bounds : (l : Option ℤ) → (pos 1 ≤ℤ page_limit l) × (page_limit l ≤ℤ pos 200)
page_limit_bounds none = (omega arith, omega arith)
page_limit_bounds (some l) = (ground arith, ground arith)

page_limit_small : (l : Option ℤ) → pos_part (page_limit l) < 2147483648
page_limit_small none = omega arith
page_limit_small (some l) = ground arith

page_offset_bound : (o : Option ℤ) → pos 0 ≤ℤ page_offset o
page_offset_bound none = omega arith
page_offset_bound (some o) = ground arith

check_page-passes :
    (limit offset : ℤ) (db : Db)
    → pos 0 ≤ℤ limit
    → pos 0 ≤ℤ offset
    → check_page limit offset db ≡ ok tt db
check_page-passes limit offset db h k = ground arith

to_int32-small : (x : ℤ) → pos 0 ≤ℤ x → pos_part x < 2147483648 → to_int32 x ≡ x
to_int32-small (pos n) h k = ground arith
to_int32-small (negsuc n) h k = absurd (omega arith)

-- A number as it was asked for, if it is in the range, and else the default.
abbrev pub IsAsked : ℤ → ℤ → ℤ → Option ℤ → ℤ → Type 0
IsAsked low high default none x = x ≡ default
IsAsked low high default (some a) x =
    ((low ≤ℤ a) × (a ≤ℤ high) × (x ≡ a)) ⊎ (¬ ((low ≤ℤ a) × (a ≤ℤ high)) × (x ≡ default))

abbrev pub IsFrom : Option ℤ → ℤ → Type 0
IsFrom none x = x ≡ pos 0
IsFrom (some a) x = ((pos 0 ≤ℤ a) × (x ≡ a)) ⊎ (¬ (pos 0 ≤ℤ a) × (x ≡ pos 0))

page_limit-IsAsked : (l : Option ℤ) → IsAsked (pos 1) (pos 200) (pos 25) l (page_limit l)
page_limit-IsAsked none = refl
page_limit-IsAsked (some l) = elim (Bool-cases (leb_ℤ (pos 1) l && leb_ℤ l (pos 200))) [
  | inl inside ↦ rw inside (inl (ground (arith, inside), ground (arith, inside), refl))
  | inr outside ↦ rw outside (inr ((λ h. ground (arith, outside, h.0, h.1)), refl))
]

page_offset-IsFrom : (o : Option ℤ) → IsFrom o (page_offset o)
page_offset-IsFrom none = refl
page_offset-IsFrom (some o) = elim (Bool-cases (leb_ℤ (pos 0) o)) [
  | inl inside ↦ rw inside (inl (ground (arith, inside), refl))
  | inr outside ↦ rw outside (inr ((λ h. ground (arith, outside, h)), refl))
]

-- A number that GraphQL lets through is an int32, and so not larger than the largest of them.
abbrev pub IsInt32 : Option ℤ → Type 0
IsInt32 none = Unit
IsInt32 (some o) = o ≤ℤ pos 2147483647

page_offset_small : (o : Option ℤ) → IsInt32 o → pos_part (page_offset o) < 2147483648
page_offset_small none h = omega arith
page_offset_small (some o) h = ground (arith, h)

module _ (ilike : String → String → Bool) (before : Joined → Joined → Bool) (ctx : Context)
    (filter : Option FilterArgs) (limit offset : Option ℤ) (db : Db) where
  search-ok :
      (f : InventoryFilter) (lim off : ℤ)
      → check_page lim off db ≡ ok tt db
      → search_inventory ilike before f lim off db
        ≡ ok
            (
              map (λ j. j.entry) (page lim off (order_by before (found_entries ilike f db))),
              length (found_entries ilike f db),
            )
            db
  unfolding search_inventory
  search-ok f lim off h =
      >>-ok (check_page lim off)
        (gets (found_entries ilike f) >>= (λ rows.
          pure (map (λ j. j.entry) (page lim off (order_by before rows)), length rows)))
        db h

  -- Admin and staff always get a page, whatever numbers they send. Its total is the number of rows
  -- that the filter finds; its limit is the one asked for if that is from 1 to 200, and else 25; its
  -- offset is the one asked for if that is not negative, and else 0; and its entries are, of the rows
  -- found, in their order, as many as the limit says from the offset on, fewer where these end.
  -- Nothing is written. The rows number less than 2^31, and the offset is an int32.
  pub inventory_entries-Paged :
      require_admin_or_staff ctx ≡ none
      → length (found_entries ilike (filter_of filter) db) < 2147483648
      → IsInt32 offset
      → (p : InventoryPage) × (inventory_entries ilike before ctx filter limit offset db ≡ ok p db)
        × (p.total ≡ pos (length (found_entries ilike (filter_of filter) db)))
        × IsAsked (pos 1) (pos 200) (pos 25) limit p.limit
        × IsFrom offset p.offset
        × (p.entries
            ≡ map
                (λ j. j.entry)
                (take (pos_part p.limit) (
                  drop
                    (pos_part p.offset)
                    (order_by before (found_entries ilike (filter_of filter) db)))))
        × (length p.entries
            ≡ min
                (pos_part p.limit)
                (length (found_entries ilike (filter_of filter) db) - pos_part p.offset))
  unfolding inventory_entries
  inventory_entries-Paged role few asked =
      let small = page_offset_small offset asked in
      let lim = page_limit limit in
      let off = page_offset offset in
      let rows = found_entries ilike (filter_of filter) db in
      let (low, _) = page_limit_bounds limit in
      let from_zero = page_offset_bound offset in
      let lim_is = to_int32-small lim (omega arith) (page_limit_small limit) in
      let off_is = to_int32-small off from_zero small in
      let p : InventoryPage = record {
        entries = map (λ j. j.entry) (page lim off (order_by before rows));
        total = to_int32 (pos (length rows));
        limit = to_int32 lim;
        offset = to_int32 off;
      } in
      (
        p,
        ap
              (λ o.
                (check o
                    >> (search_inventory ilike before (filter_of filter) lim off
                        >>= (λ found. pure (answer found))))
                  db)
              role
            ∙ ap (λ o. elim o [ ok found w ↦ ok (answer found) w | err e w ↦ err e w ])
                (search-ok (filter_of filter) lim off
                  (check_page-passes lim off db (omega arith) from_zero)),
        to_int32-small (pos (length rows)) (omega arith) few,
        subst (IsAsked (pos 1) (pos 200) (pos 25) limit) (sym lim_is) (page_limit-IsAsked limit),
        subst (IsFrom offset) (sym off_is) (page_offset-IsFrom offset),
        ap (λ n. map (λ j. j.entry) (page n off (order_by before rows))) (sym lim_is)
            ∙ ap (λ n. map (λ j. j.entry) (page (to_int32 lim) n (order_by before rows)))
                (sym off_is),
        length-map (page lim off (order_by before rows)) (λ j. j.entry)
            ∙ (length-take (pos_part lim) (drop (pos_part off) (order_by before rows))
                ∙ (ap (min (pos_part lim)) (
                      length-drop (pos_part off) (order_by before rows)
                      ∙ ap (λ n. n - pos_part off) (length-order_by before rows))
                    ∙ ap2_min (sym lim_is) (sym off_is))),
      )
    where
      answer : List Inventory × ℕ → InventoryPage
      answer found = record {
        entries = found.0;
        total = to_int32 (pos found.1);
        limit = to_int32 (page_limit limit);
        offset = to_int32 (page_offset offset);
      }

      ap2_min :
          {a b c d : ℤ}
          → a ≡ b
          → c ≡ d
          → min (pos_part a) (length (found_entries ilike (filter_of filter) db) - pos_part c)
            ≡ min (pos_part b) (length (found_entries ilike (filter_of filter) db) - pos_part d)
      ap2_min {a} {b} {c} {d} p q =
          ap
            (λ x.
              min (pos_part x) (length (found_entries ilike (filter_of filter) db) - pos_part c))
            p
          ∙ ap
              (λ x.
                min (pos_part b) (length (found_entries ilike (filter_of filter) db) - pos_part x))
              q
