-- ===== src/Migrate.antt =====
-- internal/database/migrate.go: the migrations of a directory, each in a transaction of its own,
-- with the table schema_migrations of the versions that were applied.
pub mod Applied
pub mod Order
pub mod Executed
use ficct_boutique_backend_g.Base.{
  String, Bool, true, false, not, Option, none, some, List, [], ◌∷◌, map, any_where, select_where,
  insert_row, order_by, if◌then◌else◌,
}
use ficct_boutique_backend_g.Base.Int.{ℤ, leb_ℤ, eq_ℤ}
use ficct_boutique_backend_g.Text.Split.{split_two, cut_suffix}
use ficct_boutique_backend_g.Text.Number.{parse_int64}

pub data Direction : Type 0 where
  up down : Direction

-- os.DirEntry, as far as it is read.
pub record DirEntry : Type 0 where
  pub name : String
  pub is_dir : Bool

-- The contents of the database beside the table, and the table's versions.
pub record Schema (S : Type 0) : Type 0 where
  pub contents : S
  pub versions : List ℤ

-- What PostgreSQL and the file system answer: whether the table can be made and read, the entries
-- of the directory, its files, whether the transaction of a version begins and commits and its row
-- is written, and what a script makes of the contents.
pub record Surroundings (S : Type 0) : Type 0 where
  pub ensures : Bool
  pub read_dir : Option (List DirEntry)
  pub loads_applied : Bool
  pub read_file : String → Option String
  pub begins : ℤ → Bool
  pub exec : String → S → Option S
  pub records : ℤ → Bool
  pub commits : ℤ → Bool

pub data MigrateError : Type 0 where
  ensure_table read_dir_failed query_applied : MigrateError
  read_failed begin_failed apply_failed record_failed unrecord_failed commit_failed :
      ℤ → MigrateError

-- The error of a run, nil for a good one, and the database that it leaves.
abbrev pub Run : Type 0 → Type 0
Run S = Option MigrateError × Schema S

-- "." + string(direction) + ".sql"
abbrev pub suffix : Direction → String
suffix up = ".up.sql"
suffix down = ".down.sql"

-- The version in front of the first "_" of a file's name.
abbrev pub version_in : Option String → Option ℤ
version_in none = none
version_in (some base) = parse_int64 (split_two 95 base).0

unfoldable pub version_of : Direction → DirEntry → Option ℤ
version_of dir f = if f.is_dir then none else version_in (cut_suffix (suffix dir) f.name)

abbrev pub with_version : Option ℤ → String → List (ℤ × String) → List (ℤ × String)
with_version none name rest = rest
with_version (some v) name rest = (v, name) ∷ rest

-- The versions and the names of the files, in the directory's order.
unfoldable pub scan : Direction → List DirEntry → List (ℤ × String)
scan dir [] = []
scan dir (f ∷ files) = with_version (version_of dir f) f.name (scan dir files)

-- `byVersion[v]`: the last file with the version.
abbrev pub file_of : ℤ → String → List (ℤ × String) → String
file_of v found [] = found
file_of v found ((w, name) ∷ rest) = file_of v (if eq_ℤ v w then name else found) rest

abbrev pub version_before : Direction → ℤ → ℤ → Bool
version_before up v w = leb_ℤ v w
version_before down v w = leb_ℤ w v

-- The versions, sorted for the direction.
unfoldable pub plan : Direction → List (ℤ × String) → List ℤ
plan dir found = order_by (version_before dir) (map (λ f. f.0) found)

abbrev pub is_applied : List ℤ → ℤ → Bool
is_applied versions v = any_where (eq_ℤ v) versions

-- `continue` for an applied version on the way up, and for one that is not on the way down.
abbrev pub skips : Direction → List ℤ → ℤ → Bool
skips up applied v = is_applied applied v
skips down applied v = not (is_applied applied v)

-- INSERT … ON CONFLICT DO NOTHING, or DELETE.
abbrev pub recorded : Direction → ℤ → List ℤ → List ℤ
recorded up v versions = if is_applied versions v then versions else insert_row v versions
recorded down v versions = select_where (λ w. not (eq_ℤ v w)) versions

abbrev pub record_error : Direction → ℤ → MigrateError
record_error up v = record_failed v
record_error down v = unrecord_failed v

module _ {S : Type 0} (dir : Direction) (sur : Surroundings S) (found : List (ℤ × String)) where
  -- The transaction after the script: any error rolls it back.
  abbrev pub finish_version : ℤ → Schema S → Option S → Run S
  finish_version v s none = (some (apply_failed v), s)
  finish_version v s (some c) =
      if not (sur.records v)
      then (some (record_error dir v), s)
      else if not (sur.commits v)
      then (some (commit_failed v), s)
      else (none, record { contents = c; versions = recorded dir v s.versions })

  abbrev pub with_script : ℤ → Schema S → Option String → Run S
  with_script v s none = (some (read_failed v), s)
  with_script v s (some sql) =
      if not (sur.begins v)
      then (some (begin_failed v), s)
      else finish_version v s (sur.exec sql s.contents)

  -- One round of the loop that does not `continue`.
  unfoldable pub apply_version : ℤ → Schema S → Run S
  apply_version v s = with_script v s (sur.read_file (file_of v "" found))

  abbrev pub go_on : (Schema S → Run S) → Run S → Run S
  go_on rest (none, s) = rest s
  go_on rest (some e, s) = (some e, s)

  unfoldable pub run_versions : List ℤ → List ℤ → Schema S → Run S
  run_versions applied [] s = (none, s)
  run_versions applied (v ∷ vs) s = elim (skips dir applied v) [
    | true ↦ run_versions applied vs s
    | false ↦ go_on (run_versions applied vs) (apply_version v s)
  ]

module _ {S : Type 0} where
  abbrev pub run_found : Direction → Surroundings S → Option (List DirEntry) → Schema S → Run S
  run_found dir sur none s = (some read_dir_failed, s)
  run_found dir sur (some files) s =
      if not sur.loads_applied
      then (some query_applied, s)
      else run_versions dir sur (scan dir files) s.versions (plan dir (scan dir files)) s

  unfoldable pub run_migrations : Direction → Surroundings S → Schema S → Run S
  run_migrations dir sur s =
      if not sur.ensures then (some ensure_table, s) else run_found dir sur sur.read_dir s
