-- ===== src/Examples/Migrating.antt =====
-- A directory of two migrations, one of which was applied before.
use ficct_boutique_backend_g.Base.{
  ◌≡◌, refl, String, true, false, none, some, List, [], ◌∷◌, ◌++◌, All, ◌&&◌, map, order_by,
}
use ficct_boutique_backend_g.Base.Int.{ℤ, pos}
use ficct_boutique_backend_g.Text.Split.{split_two, cut_suffix}
use ficct_boutique_backend_g.Text.Number.{parse_int64}
use ficct_boutique_backend_g.Migrate.{
  up, DirEntry, Schema, Surroundings, is_applied, plan, scan, version_of, run_versions,
  apply_version, run_migrations,
}
use ficct_boutique_backend_g.Migrate.Executed.{
  has, is_asked, InOrder, DidRun, run_migrations-DidRun,
}
use ficct_boutique_backend_g.Migrate.Applied.{run_migrations-again}

abbrev file : String → DirEntry
file name = record { name = name; is_dir = false }

abbrev files : List DirEntry
files =
    file "0001_init.down.sql"
    ∷ file "0002_push_tokens.up.sql"
    ∷ file "0001_init.up.sql"
    ∷ file "README.md"
    ∷ []

-- The contents are the scripts that were executed.
abbrev server : Surroundings (List String)
server = record {
  ensures = true;
  read_dir = some files;
  loads_applied = true;
  read_file = λ name. some name;
  begins = λ v. true;
  exec = λ sql done. some (done ++ (sql ∷ []));
  records = λ v. true;
  commits = λ v. true;
}

-- Nothing more can be executed.
abbrev broken : Surroundings (List String)
broken = record server { exec = λ sql done. none }

abbrev old : Schema (List String)
old = record { contents = "0001_init.up.sql" ∷ []; versions = pos 1 ∷ [] }

abbrev new : Schema (List String)
new = record {
  contents = "0001_init.up.sql" ∷ "0002_push_tokens.up.sql" ∷ [];
  versions = pos 1 ∷ pos 2 ∷ [];
}

run_migrations-DidRun_example :
    (todo : List ℤ) × DidRun up server (scan up files) todo old (run_migrations up server old)
    × InOrder up todo
    × ((v : ℤ)
        → has todo v ≡ (has (map (λ f. f.0) (scan up files)) v && is_asked up (has old.versions v)))
run_migrations-DidRun_example = run_migrations-DidRun up server files old refl refl refl

migrates : run_migrations up server old ≡ (none, new)
unfolding run_migrations run_versions apply_version plan scan version_of order_by parse_int64
    split_two cut_suffix
migrates = refl

run_migrations-again_example :
    All (λ v. is_applied new.versions v ≡ true) (plan up (scan up files))
    × All (λ v. is_applied new.versions v ≡ true) old.versions
    × (run_migrations up broken new ≡ (none, new))
run_migrations-again_example =
    run_migrations-again server broken files old new refl refl refl refl refl refl migrates
