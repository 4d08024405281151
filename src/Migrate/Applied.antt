-- ===== src/Migrate/Applied.antt =====
-- What a run of internal/database/migrate.go upwards leaves recorded.
use ficct_boutique_backend_g.Base.{
  ◌≡◌, ◌∙◌, refl, ap, true, not, Option, none, some, List, [], ◌∷◌, String, All, any_where-append,
  select_where, arith, Bool-cases, inl, inr, subst,
}
use ficct_boutique_backend_g.Base.Int.{ℤ, eq_ℤ, eq_ℤ_iff}
use ficct_boutique_backend_g.Migrate.{
  up, DirEntry, Schema, Surroundings, is_applied, recorded, plan, scan, skips, file_of,
  run_versions, run_migrations,
}
use ficct_boutique_backend_g.Migrate.Order.{
  pending, script_done, then_all, run_all, IsBeginning, run_migrations-IsBeginning,
  run_migrations-reads,
}

eq_ℤ_self : (v : ℤ) → eq_ℤ v v ≡ true
eq_ℤ_self v = (eq_ℤ_iff v v).1 refl

recorded-keeps :
    (v w : ℤ) (versions : List ℤ)
    → is_applied versions w ≡ true
    → is_applied (recorded up v versions) w ≡ true
recorded-keeps v w versions h = ground (arith, any_where-append (eq_ℤ w) versions (v ∷ []))

recorded-has : (v : ℤ) (versions : List ℤ) → is_applied (recorded up v versions) v ≡ true
recorded-has v versions = ground (arith, eq_ℤ_self v, any_where-append (eq_ℤ v) versions (v ∷ []))

module _ {S : Type 0} (sur : Surroundings S) (found : List (ℤ × String)) where
  -- A script that was done records its version, and keeps the others.
  script_done-Records :
      (v : ℤ) (s u : Schema S) (o : Option String)
      → script_done up sur found v s o ≡ some u
      → u.versions ≡ recorded up v s.versions
  script_done-Records v s u none h = absurd (cc)
  script_done-Records v s u (some sql) h = ground arith

  abbrev Keeps : Schema S → Schema S → Type 0
  Keeps s w = (x : ℤ) → is_applied s.versions x ≡ true → is_applied w.versions x ≡ true

  run_all-Records :
      (vs : List ℤ) (s w : Schema S)
      → run_all up sur found vs s ≡ some w
      → All (λ v. is_applied w.versions v ≡ true) vs × Keeps s w
  run_all-Records [] s w h = (tt, λ x k. rw (← w_is) k)
    where
      w_is : s ≡ w
      w_is = cc
  run_all-Records (v ∷ vs) s w h =
      first (script_done up sur found v s script) refl (λ u. run_all-Records vs u w) h
    where
      script : Option String
      script = sur.read_file (file_of v "" found)

      first :
          (o : Option (Schema S))
          → script_done up sur found v s script ≡ o
          → ((u : Schema S)
              → run_all up sur found vs u ≡ some w
              → All (λ v. is_applied w.versions v ≡ true) vs × Keeps u w)
          → then_all up sur found (run_all up sur found vs) o ≡ some w
          → All (λ v. is_applied w.versions v ≡ true) (v ∷ vs) × Keeps s w
      first none e later k = absurd (cc)
      first (some u) e later k =
          let recorded_is = script_done-Records v s u script e in
          let (all, keeps) = later u k in
          (
            (keeps v (ap (λ l. is_applied l v) recorded_is ∙ recorded-has v s.versions), all),
            λ x old.
                keeps x (ap (λ l. is_applied l x) recorded_is ∙ recorded-keeps v x s.versions old),
          )

  -- Versions that are not pending were applied before.
  All-applied :
      (vs before after : List ℤ)
      → ((x : ℤ) → is_applied before x ≡ true → is_applied after x ≡ true)
      → All (λ v. is_applied after v ≡ true) (select_where (λ v. not (skips up before v)) vs)
      → All (λ v. is_applied after v ≡ true) vs
  All-applied [] before after keeps h = tt
  All-applied (v ∷ vs) before after keeps h = elim (Bool-cases (is_applied before v)) [
    | inl old ↦ (keeps v old, All-applied vs before after keeps (rw old at h))
    | inr new ↦ let both = rw new at h in (both.0, All-applied vs before after keeps both.1)
  ]

  -- Where every version is applied, nothing is done.
  nothing_to_do :
      (vs applied : List ℤ) (s : Schema S)
      → All (λ v. is_applied applied v ≡ true) vs
      → run_versions up sur found applied vs s ≡ (none, s)
  unfolding run_versions
  nothing_to_do [] applied s h = refl
  nothing_to_do (v ∷ vs) applied s h = rw (h.0, run_versions) (nothing_to_do vs applied s h.1)

-- Each of some versions is one of them.
All-is_applied :
    (P : ℤ → Type 0) (versions : List ℤ)
    → ((x : ℤ) → is_applied versions x ≡ true → P x)
    → All P versions
All-is_applied P [] each = tt
All-is_applied P (v ∷ versions) each =
    (each v (rw (eq_ℤ_self v) refl), All-is_applied P versions λ x h. each x (ground arith))

-- A run upwards that answers no error has recorded the version of every file, and keeps the versions
-- that were there. A second run on the same directory, whatever scripts and transactions would do,
-- answers no error either, executes nothing and leaves the database as it is.
pub run_migrations-again :
    {S : Type 0} (sur sur' : Surroundings S) (files : List DirEntry) (s w : Schema S)
    → sur.ensures ≡ true
    → sur.read_dir ≡ some files
    → sur.loads_applied ≡ true
    → sur'.ensures ≡ true
    → sur'.read_dir ≡ some files
    → sur'.loads_applied ≡ true
    → run_migrations up sur s ≡ (none, w)
    → All (λ v. is_applied w.versions v ≡ true) (plan up (scan up files))
      × All (λ v. is_applied w.versions v ≡ true) s.versions
      × (run_migrations up sur' w ≡ (none, w))
run_migrations-again sur sur' files s w table listed loaded table' listed' loaded' good =
    let found = scan up files in
    let (begun, _) = run_migrations-IsBeginning up sur files s table listed loaded in
    let done = subst (IsBeginning up sur found (pending up s.versions found) s) good begun in
    let (all, keeps) = run_all-Records sur found (pending up s.versions found) s w done in
    let every = All-applied sur found (plan up found) s.versions w.versions keeps all in
    (
      every,
      All-is_applied (λ v. is_applied w.versions v ≡ true) s.versions keeps,
      run_migrations-reads up sur' files w table' listed' loaded'
          ∙ nothing_to_do sur' found (plan up found) w.versions w every,
    )
