-- ===== src/Migrations/Examples.antt =====
-- The ledger's own migrations, on a small model of a database: whether it has the two tables' columns.
use agi_inspired.Prelude.{
  ℕ, ◌<◌, ◌≡◌, ◌⊎◌, Bool, true, false, some, All, is_some, keep, if◌then◌else◌, ◌+◌, ◌&&◌, refl,
  arith,
}
use agi_inspired.Prelude.Text.{Text, codes, starts_with}
use agi_inspired.Prelude.Sort.{sort_by}
use agi_inspired.Migrations.{
  moved, failed, no_rollback_path, Sqlite, Database, ledger_migrations, to_revert, migrate_file,
  rollback_file, apply_all, apply_migration, is_applied, pending, revert_all,
}
use agi_inspired.Migrations.Forward.{Newest, migrate-Newest}
use agi_inspired.Migrations.Backward.{rollback_lem}

-- Scripts that begin with ALTER TABLE fail if they are `strict`; no query finds a row.
alters : Text → Bool
unfolding starts_with
alters script = starts_with script (codes "ALTER TABLE")

abbrev small : Bool → Sqlite
small strict = record {
  S = ℕ;
  run = λ script n. if alters script && strict then (n, false) else (n + 1, true);
  query = λ q n. some false;
}

abbrev lenient : Sqlite
lenient = small false

abbrev strict : Sqlite
strict = small true

abbrev empty : Database lenient
empty = record { user_version = 0; rest = 0 }

abbrev strict_empty : Database strict
strict_empty = record { user_version = 0; rest = 0 }

migrates : (migrate_file lenient ledger_migrations empty).1 ≡ moved 0 2
unfolding migrate_file apply_all apply_migration is_applied pending keep sort_by alters
migrates = refl

migrate-Newest_example :
    Newest lenient ledger_migrations empty (migrate_file lenient ledger_migrations empty).0 0 2
migrate-Newest_example = migrate-Newest lenient ledger_migrations empty 0 2 migrates

second_fails : (migrate_file strict ledger_migrations strict_empty).1 ≡ failed 2
unfolding migrate_file apply_all apply_migration is_applied pending keep sort_by alters
second_fails = refl

abbrev newest : Database lenient
newest = record { user_version = 2; rest = 2 }

rollback_lem_example :
    let (db', out) = rollback_file lenient ledger_migrations 0 newest in
    (out ≡ moved 2 0)
      × (db'.user_version ≡ 0)
      × All (λ m. is_some m.down ≡ true) (to_revert ledger_migrations 0 2)
    ⊎ ((out ≡ failed db'.user_version) ⊎ (out ≡ no_rollback_path db'.user_version))
      × (0 < db'.user_version)
unfolding to_revert keep
rollback_lem_example =
    rollback_lem lenient ledger_migrations 0 newest (omega arith)
      (refl, omega arith, (refl, omega arith, refl))

-- The first migration has no way back.
baseline_stays : (rollback_file lenient ledger_migrations 0 newest).1 ≡ no_rollback_path 1
unfolding rollback_file revert_all to_revert keep alters
baseline_stays = refl
