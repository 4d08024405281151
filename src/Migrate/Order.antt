-- ===== src/Migrate/Order.antt =====
-- The order in which internal/database/migrate.go runs the scripts.
use ficct_boutique_backend_g.Base.{
  ◌≡◌, ◌≢◌, refl, sym, ap, subst, ◌∙◌, true, false, not, Option, none, some, List, [], ◌∷◌, ◌++◌,
  String, select_where, if◌then◌else◌, arith, Bool-cases, inl, inr, IsOrdered, order_by-IsOrdered,
  map, select_where-IsOrdered,
}
use ficct_boutique_backend_g.Base.Int.{ℤ}
use ficct_boutique_backend_g.Migrate.{
  DirEntry, Direction, up, down, Schema, Surroundings, Run, ensure_table, query_applied,
  version_before, plan, scan, skips, recorded, file_of, finish_version, with_script, apply_version,
  go_on, run_versions, run_migrations, run_found,
}

version_before_total :
    (dir : Direction) (v w : ℤ) → version_before dir v w ≡ false → version_before dir w v ≡ true
version_before_total up v w h = ground arith
version_before_total down v w h = ground arith

version_before_trans :
    (dir : Direction) (u v w : ℤ)
    → version_before dir u v ≡ true
    → version_before dir v w ≡ true
    → version_before dir u w ≡ true
version_before_trans up u v w h k = ground arith
version_before_trans down u v w h k = ground arith

-- The versions whose scripts a run has to execute, in order.
abbrev pub pending : Direction → List ℤ → List (ℤ × String) → List ℤ
pending dir applied found = select_where (λ v. not (skips dir applied v)) (plan dir found)

module _ {S : Type 0} (dir : Direction) (sur : Surroundings S) (found : List (ℤ × String)) where
  -- Each script works on what the one before it left, and its version is recorded.
  abbrev pub script_done : ℤ → Schema S → Option String → Option (Schema S)
  script_done v s none = none
  script_done v s (some sql) = elim (sur.exec sql s.contents) [
    | none ↦ none
    | some c ↦ some (record { contents = c; versions = recorded dir v s.versions })
  ]

  abbrev pub then_all : (Schema S → Option (Schema S)) → Option (Schema S) → Option (Schema S)
  then_all rest none = none
  then_all rest (some s) = rest s

  abbrev pub run_all : List ℤ → Schema S → Option (Schema S)
  run_all [] s = some s
  run_all (v ∷ vs) s = then_all (run_all vs) (script_done v s (sur.read_file (file_of v "" found)))

  -- A round either fails and leaves the database alone, or did the version's script.
  abbrev IsRound : ℤ → Schema S → Run S → Type 0
  IsRound v s (some e, w) = w ≡ s
  IsRound v s (none, w) = script_done v s (sur.read_file (file_of v "" found)) ≡ some w

  finish_version-IsRound :
      (v : ℤ) (s : Schema S) (sql : String) (o : Option S)
      → sur.read_file (file_of v "" found) ≡ some sql
      → sur.exec sql s.contents ≡ o
      → IsRound v s (finish_version dir sur found v s o)
  finish_version-IsRound v s sql none e r = refl
  finish_version-IsRound v s sql (some c) e r = elim (Bool-cases (sur.records v)) [
    | inr no_row ↦ rw no_row refl
    | inl row ↦ rw row (elim (Bool-cases (sur.commits v)) [
      | inr refused ↦ rw refused refl
      | inl committed ↦ rw committed (
          ap (script_done v s) e
          ∙ ap
              (λ o. elim o [
                | none ↦ none
                | some c ↦ some (record { contents = c; versions = recorded dir v s.versions })
              ])
              r)
    ])
  ]

  with_script-IsRound :
      (v : ℤ) (s : Schema S) (o : Option String)
      → sur.read_file (file_of v "" found) ≡ o
      → IsRound v s (with_script dir sur found v s o)
  with_script-IsRound v s none e = refl
  with_script-IsRound v s (some sql) e = elim (Bool-cases (sur.begins v)) [
    | inl begun ↦ rw begun (finish_version-IsRound v s sql (sur.exec sql s.contents) e refl)
    | inr not_begun ↦ rw not_begun refl
  ]

  apply_version-IsRound : (v : ℤ) (s : Schema S) → IsRound v s (apply_version dir sur found v s)
  unfolding apply_version
  apply_version-IsRound v s = with_script-IsRound v s (sur.read_file (file_of v "" found)) refl

  -- The versions `done` were executed in this order; they are all of `todo` if nothing failed, and
  -- a beginning of it otherwise.
  abbrev pub IsBeginning : List ℤ → Schema S → Run S → Type 0
  IsBeginning todo s (none, w) = run_all todo s ≡ some w
  IsBeginning todo s (some e, w) =
      (done failed : List ℤ) × (todo ≡ done ++ failed) × (failed ≢ []) × (run_all done s ≡ some w)

  go_on-IsBeginning :
      (v : ℤ) (todo : List ℤ) (s : Schema S) (rest : Schema S → Run S) (r : Run S)
      → ((w : Schema S) → IsBeginning todo w (rest w))
      → IsRound v s r
      → IsBeginning (v ∷ todo) s (go_on dir sur found rest r)
  go_on-IsBeginning v todo s rest (some e, w) later round =
      ([], v ∷ todo, refl, (λ h. cc), ap some (sym round))
  go_on-IsBeginning v todo s rest (none, w) later round = after (rest w) (later w)
    where
      after : (r : Run S) → IsBeginning todo w r → IsBeginning (v ∷ todo) s r
      after (none, u) h = ap (then_all (run_all todo)) round ∙ h
      after (some e, u) (done, failed, split, some_failed, h) = (
        v ∷ done,
        failed,
        ap (λ l. v ∷ l) split,
        some_failed,
        ap (then_all (run_all done)) round ∙ h,
      )

  pub run_versions-IsBeginning :
      (applied vs : List ℤ) (s : Schema S)
      → IsBeginning
          (select_where (λ v. not (skips dir applied v)) vs)
          s
          (run_versions dir sur found applied vs s)
  unfolding run_versions
  run_versions-IsBeginning applied [] s = refl
  run_versions-IsBeginning applied (v ∷ vs) s = elim (Bool-cases (skips dir applied v)) [
    | inl skip ↦ rw (skip, run_versions) (run_versions-IsBeginning applied vs s)
    | inr do_it ↦
        rw (do_it, run_versions)
          (go_on-IsBeginning v (select_where (λ v. not (skips dir applied v)) vs) s
            (run_versions dir sur found applied vs) (apply_version dir sur found v s)
            (run_versions-IsBeginning applied vs) (apply_version-IsRound v s))
  ]

pending-IsOrdered :
    (dir : Direction) (applied : List ℤ) (found : List (ℤ × String))
    → IsOrdered (version_before dir) (pending dir applied found)
unfolding plan
pending-IsOrdered dir applied found =
    select_where-IsOrdered (version_before dir) (λ v. not (skips dir applied v)) (plan dir found)
      (order_by-IsOrdered (version_before dir) (version_before_total dir) (version_before_trans dir)
        (map (λ f. f.0) found))

pub run_migrations-reads :
    {S : Type 0} (dir : Direction) (sur : Surroundings S) (files : List DirEntry) (s : Schema S)
    → sur.ensures ≡ true
    → sur.read_dir ≡ some files
    → sur.loads_applied ≡ true
    → run_migrations dir sur s
      ≡ run_versions dir sur (scan dir files) s.versions (plan dir (scan dir files)) s
unfolding run_migrations
run_migrations-reads dir sur files s table listed loaded =
    ap (λ b. if not b then (some ensure_table, s) else run_found dir sur sur.read_dir s) table
    ∙ (ap (λ o. run_found dir sur o s) listed
        ∙ ap
            (λ b.
              if not b
              then (some query_applied, s)
              else run_versions dir sur (scan dir files) s.versions (plan dir (scan dir files)) s)
            loaded)

-- A run that can read the table and the directory executes, in the order of their versions
-- (falling, on the way down), the scripts of the versions that the table does not have (has, on the
-- way down), each on what the one before it left, and records each version with its script. If it
-- answers no error it executed all of them; if it answers one, a beginning of them that is not all,
-- and the database is what these left.
pub run_migrations-IsBeginning :
    {S : Type 0} (dir : Direction) (sur : Surroundings S) (files : List DirEntry) (s : Schema S)
    → sur.ensures ≡ true
    → sur.read_dir ≡ some files
    → sur.loads_applied ≡ true
    → IsBeginning dir sur
        (scan dir files)
        (pending dir s.versions (scan dir files))
        s
        (run_migrations dir sur s)
      × IsOrdered (version_before dir) (pending dir s.versions (scan dir files))
run_migrations-IsBeginning dir sur files s table listed loaded = (
  subst (IsBeginning dir sur (scan dir files) (pending dir s.versions (scan dir files)) s)
      (sym (run_migrations-reads dir sur files s table listed loaded))
      (run_versions-IsBeginning dir sur (scan dir files) s.versions (plan dir (scan dir files)) s),
  pending-IsOrdered dir s.versions (scan dir files),
)
