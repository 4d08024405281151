-- ===== src/Migrate/Executed.antt =====
-- What a run of internal/database/migrate.go has executed and recorded.
use ficct_boutique_backend_g.Base.{
  ◌≡◌, ◌≢◌, ◌∙◌, refl, ap, subst, true, Bool, not, ◌&&◌, ◌||◌, Option, none, some, List, [], ◌∷◌,
  ◌++◌, String, map, any_where, select_where, order_by, any-order_by, any_where-append, IsOrdered,
  arith, Bool-cases, inl, inr,
}
use ficct_boutique_backend_g.Base.Int.{ℤ, leb_ℤ, eq_ℤ, eq_ℤ_iff}
use ficct_boutique_backend_g.Migrate.{
  DirEntry, Direction, up, down, Schema, Surroundings, Run, is_applied, plan, scan, skips, recorded,
  file_of, version_before, run_migrations,
}
use ficct_boutique_backend_g.Migrate.Order.{
  pending, script_done, then_all, run_all, IsBeginning, run_migrations-IsBeginning,
}

abbrev pub has : List ℤ → ℤ → Bool
has vs v = any_where (eq_ℤ v) vs

-- Upwards the versions that were not applied are due, downwards those that were.
abbrev pub is_asked : Direction → Bool → Bool
is_asked up applied = not applied
is_asked down applied = applied

-- Whether a version is recorded after a script, of the same version or another, was executed.
abbrev pub noted : Direction → Bool → Bool → Bool
noted up same before = same || before
noted down same before = not same && before

-- Rising upwards, falling downwards.
abbrev pub InOrder : Direction → List ℤ → Type 0
InOrder up vs = IsOrdered (λ v w. leb_ℤ v w) vs
InOrder down vs = IsOrdered (λ v w. leb_ℤ w v) vs

has-same : (vs : List ℤ) (v w : ℤ) → eq_ℤ v w ≡ true → has vs v ≡ has vs w
has-same vs v w h = ap (has vs) ((eq_ℤ_iff v w).0 h)

has-select : (q : ℤ → Bool) (vs : List ℤ) (v : ℤ) → has (select_where q vs) v ≡ (has vs v && q v)
has-select q [] v = refl
has-select q (w ∷ vs) v = elim (Bool-cases (eq_ℤ v w)) [
  | inl same ↦ ground (arith, same, ap q ((eq_ℤ_iff v w).0 same), has-select q vs v)
  | inr other ↦ ground (arith, other, has-select q vs v)
]

recorded-noted :
    (dir : Direction) (v : ℤ) (versions : List ℤ) (x : ℤ)
    → has (recorded dir v versions) x ≡ noted dir (eq_ℤ x v) (has versions x)
recorded-noted up v versions x = elim (Bool-cases (is_applied versions v)) [
  | inl old ↦ ground (arith, old, has-same versions x v)
  | inr new ↦ ground (arith, new, any_where-append (eq_ℤ x) versions (v ∷ []))
]
recorded-noted down v versions x =
    has-select (λ w. not (eq_ℤ v w)) versions x ∙ ground (arith, eq_ℤ_iff v x, eq_ℤ_iff x v)

module _ {S : Type 0} (dir : Direction) (sur : Surroundings S) (found : List (ℤ × String)) where
  -- The script of a version was executed on the contents of `s`, which gave those of `w`, and the
  -- version is recorded, or no longer, while all others are as they were.
  abbrev pub Did : ℤ → Schema S → Schema S → Type 0
  Did v s w =
      (sql : String) × (sur.read_file (file_of v "" found) ≡ some sql)
      × (sur.exec sql s.contents ≡ some w.contents)
      × ((x : ℤ) → has w.versions x ≡ noted dir (eq_ℤ x v) (has s.versions x))

  -- The scripts of some versions, each on what the one before it left.
  abbrev pub DidAll : List ℤ → Schema S → Schema S → Type 0
  DidAll [] s w = s ≡ w
  DidAll (v ∷ vs) s w = (u : Schema S) × Did v s u × DidAll vs u w

  -- A run without an error did them all, one with an error a beginning of them that is not all.
  abbrev pub DidRun : List ℤ → Schema S → Run S → Type 0
  DidRun todo s (none, w) = DidAll todo s w
  DidRun todo s (some e, w) =
      (done failed : List ℤ) × (todo ≡ done ++ failed) × (failed ≢ []) × DidAll done s w

  script_done-Did :
      (v : ℤ) (s u : Schema S) (o : Option String)
      → sur.read_file (file_of v "" found) ≡ o
      → script_done dir sur found v s o ≡ some u
      → Did v s u
  script_done-Did v s u none read h = absurd (cc)
  script_done-Did v s u (some sql) read h = go (sur.exec sql s.contents) refl h
    where
      go :
          (c : Option S)
          → sur.exec sql s.contents ≡ c
          → elim c as (λ _. Option (Schema S)) [
            | none ↦ none
            | some k ↦ some (record { contents = k; versions = recorded dir v s.versions })
          ]
            ≡ some u
          → Did v s u
      go none ran k = absurd (cc)
      go (some c) ran k =
          let made : record { contents = c; versions = recorded dir v s.versions } ≡ u = cc in
          subst (Did v s) made (sql, read, ran, recorded-noted dir v s.versions)

  run_all-DidAll :
      (vs : List ℤ) (s w : Schema S) → run_all dir sur found vs s ≡ some w → DidAll vs s w
  run_all-DidAll [] s w h = cc
  run_all-DidAll (v ∷ vs) s w h =
      go (script_done dir sur found v s (sur.read_file (file_of v "" found))) refl
        (λ u. run_all-DidAll vs u w) h
    where
      go :
          (o : Option (Schema S))
          → script_done dir sur found v s (sur.read_file (file_of v "" found)) ≡ o
          → ((u : Schema S) → run_all dir sur found vs u ≡ some w → DidAll vs u w)
          → then_all dir sur found (run_all dir sur found vs) o ≡ some w
          → DidAll (v ∷ vs) s w
      go none e later k = absurd (cc)
      go (some u) e later k = (u, script_done-Did v s u _ refl e, later u k)

  IsBeginning-DidRun :
      (todo : List ℤ) (s : Schema S) (r : Run S)
      → IsBeginning dir sur found todo s r
      → DidRun todo s r
  IsBeginning-DidRun todo s (none, w) h = run_all-DidAll todo s w h
  IsBeginning-DidRun todo s (some e, w) (done, failed, split, more, h) =
      (done, failed, split, more, run_all-DidAll done s w h)

pending-InOrder :
    (dir : Direction) (vs : List ℤ) → IsOrdered (version_before dir) vs → InOrder dir vs
pending-InOrder up vs h = h
pending-InOrder down vs h = h

skips-is_asked :
    (dir : Direction) (applied : List ℤ) (v : ℤ)
    → not (skips dir applied v) ≡ is_asked dir (has applied v)
skips-is_asked up applied v = refl
skips-is_asked down applied v = ground arith

pending-has :
    (dir : Direction) (applied : List ℤ) (found : List (ℤ × String)) (v : ℤ)
    → has (pending dir applied found) v
      ≡ (has (map (λ f. f.0) found) v && is_asked dir (has applied v))
unfolding plan
pending-has dir applied found v =
    let versions = map (λ f. f.0) found in
    has-select (λ w. not (skips dir applied w)) (order_by (version_before dir) versions) v
    ∙ (ap (λ b. b && not (skips dir applied v))
          (any-order_by (eq_ℤ v) (version_before dir) versions)
        ∙ ap (λ b. has versions v && b) (skips-is_asked dir applied v))

-- A run that can read the table and the directory has a list of versions to do: rising on the way up
-- and falling on the way down, it has the versions of the directory's files that the table does not
-- have, or, on the way down, that it has, and no others. If the run answers no error, it executed the
-- scripts of all of them, in this order, each on what the one before it left; if it answers one, a
-- beginning of them that is not all. Each script that was executed has its version recorded, on the
-- way down taken out, and no other version is touched; nothing else is done.
pub run_migrations-DidRun :
    {S : Type 0} (dir : Direction) (sur : Surroundings S) (files : List DirEntry) (s : Schema S)
    → sur.ensures ≡ true
    → sur.read_dir ≡ some files
    → sur.loads_applied ≡ true
    → (todo : List ℤ) × DidRun dir sur (scan dir files) todo s (run_migrations dir sur s)
      × InOrder dir todo
      × ((v : ℤ)
          → has todo v
            ≡ (has (map (λ f. f.0) (scan dir files)) v && is_asked dir (has s.versions v)))
run_migrations-DidRun dir sur files s table listed loaded =
    let found = scan dir files in
    let (did, ordered) = run_migrations-IsBeginning dir sur files s table listed loaded in
    (
      pending dir s.versions found,
      IsBeginning-DidRun dir sur found (pending dir s.versions found) s (run_migrations dir sur s)
          did,
      pending-InOrder dir (pending dir s.versions found) ordered,
      pending-has dir s.versions found,
    )
