-- ===== src/Migrations.antt =====
-- orchestrator/migrations.py: schema versions in `PRAGMA user_version`. SQLite is a parameter: what a
-- script does to a database, also when it fails half way, and what a query answers. The proofs are in
-- the modules below.
pub mod Forward
pub mod Backward
mod Examples
use agi_inspired.Prelude.{
  ℕ, ◌+◌, ◌-◌, Bool, true, false, not, ◌&&◌, ◌||◌, Option, none, some, String, List, [], ◌∷◌, ◌++◌,
  ltb, leb, keep, if◌then◌else◌,
}
use agi_inspired.Prelude.Text.{Text, codes, text_eq}
use agi_inspired.Prelude.Sort.{sort_by}
use mathlib.Core.List.{reverse}

pub record Migration : Type 0 where
  pub version : ℕ
  pub description : Text
  pub up : Text
  pub down : Option Text
  pub check : Option Text

abbrev pub migration : ℕ → Text → Text → Option Text → Option Text → Migration
migration version description up down check = record {
  version = version;
  description = description;
  up = up;
  down = down;
  check = check;
}

-- What comes back from `migrate` and `rollback`: the versions before and after, or the error.
pub data Outcome : Type 0 where
  moved : ℕ → ℕ → Outcome
  unknown_database missing_file : Outcome
  failed no_rollback_path : ℕ → Outcome

-- `S` is the rest of a database. `run` gives what is left of it and whether the script succeeded; of
-- `query`, `none` is a `sqlite3.Error` and `some b` says whether a row was found.
pub record Sqlite : Type 1 where
  pub S : Type 0
  pub run : Text → S → S × Bool
  pub query : Text → S → Option Bool

-- The migrations that `migrate` has to apply, in the order of their versions.
unfoldable pub pending : List Migration → ℕ → List Migration
pending ms current = sort_by (λ a b. leb a.version b.version) (keep (λ m. ltb current m.version) ms)

-- The migrations that `rollback` has to revert, from the last one back.
unfoldable pub to_revert : List Migration → ℕ → ℕ → List Migration
to_revert ms target current = keep (λ m. ltb target m.version && leb m.version current) (reverse ms)

module _ (sql : Sqlite) where
  open sql use {S, run, query}

  pub record Database : Type 0 where
    pub user_version : ℕ
    pub rest : S

  -- A row of the check's query means that the migration is there already; an error means nothing.
  unfoldable pub is_applied : Migration → S → Bool
  is_applied m s = elim m.check [
    | none ↦ false
    | some [] ↦ false
    | some (c ∷ t) ↦ elim (query (c ∷ t) s) [ none ↦ false | some row ↦ row ]
  ]

  -- One round of the loop of `migrate`; `false` is its `MigrationError`. The script's own effects stay,
  -- since it commits statement by statement.
  unfoldable pub apply_migration : Migration → Database → Database × Bool
  apply_migration m db =
      if is_applied m db.rest
      then (record db { user_version = m.version }, true)
      else (let (rest, done) = run m.up db.rest in
          if done
          then (record { user_version = m.version; rest = rest }, true)
          else (record db { rest = rest }, false))

  -- The loop: the database after it, and the version that failed.
  unfoldable pub apply_all : List Migration → Database → Database × Option ℕ
  apply_all [] db = (db, none)
  apply_all (m ∷ ms) db =
      let (db', done) = apply_migration m db in
      elim done [ true ↦ apply_all ms db' | false ↦ (db', some m.version) ]

  -- What `migrate` returns after its loop, or its `MigrationError`.
  unfoldable pub report : ℕ → Database × Option ℕ → Database × Outcome
  report current r = (r.0, elim r.1 [ none ↦ moved current r.0.user_version | some v ↦ failed v ])

  -- `migrate` on a registered database whose file is there.
  unfoldable pub migrate_file : List Migration → Database → Database × Outcome
  unfolding report
  migrate_file ms db = report db.user_version (apply_all (pending ms db.user_version) db)

  -- The loop of `rollback`: the database after it, and its error.
  unfoldable pub revert_all : List Migration → Database → Database × Option Outcome
  revert_all [] db = (db, none)
  revert_all (m ∷ ms) db = elim m.down [
    | none ↦ (db, some (no_rollback_path m.version))
    | some script ↦
        let (rest, done) = run script db.rest in
        elim done [
          | true ↦ revert_all ms (record { user_version = m.version - 1; rest = rest })
          | false ↦ (record db { rest = rest }, some (failed m.version))
        ]
  ]

  -- `rollback` on a registered database whose file is there.
  unfoldable pub rollback_file : List Migration → ℕ → Database → Database × Outcome
  rollback_file ms target db =
      if leb db.user_version target
      then (db, moved db.user_version db.user_version)
      else (let (db', error) = revert_all (to_revert ms target db.user_version) db in
          (db', elim error [ none ↦ moved db.user_version db'.user_version | some e ↦ e ]))

  -- A registered name with its migrations, and the file at the resolved path, if there is one.
  pub record Entry : Type 0 where
    pub name : Text
    pub migrations : List Migration
    pub file : Option Database

  unfoldable pub on_file :
      (List Migration → Database → Database × Outcome) → Entry → Entry × Outcome
  on_file f e = elim e.file [
    | none ↦ (e, missing_file)
    | some db ↦ let (db', out) = f e.migrations db in (record e { file = some db' }, out)
  ]

  -- `_MIGRATION_REGISTRY[db_name]`, with the work on its entry.
  unfoldable pub on_entry :
      Text → (List Migration → Database → Database × Outcome) → List Entry → List Entry × Outcome
  unfolding text_eq
  on_entry name f [] = ([], unknown_database)
  on_entry name f (e ∷ es) =
      if text_eq e.name name
      then (let (e', out) = on_file f e in (e' ∷ es, out))
      else (let (es', out) = on_entry name f es in (e ∷ es', out))

  unfoldable pub migrate : Text → List Entry → List Entry × Outcome
  migrate name es = on_entry name migrate_file es

  unfoldable pub rollback : Text → ℕ → List Entry → List Entry × Outcome
  rollback name target es = on_entry name (λ ms db. rollback_file ms target db) es

  -- `migrate_all`: each registered database on its own; an error of one does not stop the others.
  unfoldable pub migrate_all : List Entry → List Entry
  migrate_all [] = []
  migrate_all (e ∷ es) = (on_file migrate_file e).0 ∷ migrate_all es

-- The lines of a script, each with its line feed.
abbrev script_lines : List String → Text
script_lines [] = []
script_lines (l ∷ ls) = codes l ++ 10 ∷ script_lines ls

-- LEDGER_MIGRATIONS
abbrev pub ledger_migrations : List Migration
ledger_migrations =
    migration 1 (codes "Establish baseline schema (ledger.db — tasks, entities, experiences, etc.)")
      (script_lines (
        "-- Baseline: the schema is already applied by the harness."
        ∷ "-- This migration records version 1 as the current state." ∷ "SELECT 1;" ∷ []))
      none (some (codes "SELECT 1 FROM sqlite_master WHERE type='table' AND name='tasks'"))
    ∷ migration 2 (codes "Add task owner-process identity columns for immediate orphan recovery")
        (script_lines (
          "ALTER TABLE tasks ADD COLUMN owner_pid INTEGER;"
          ∷ "ALTER TABLE tasks ADD COLUMN owner_process_start_id TEXT;" ∷ []))
        (some (
          script_lines (
            "ALTER TABLE tasks DROP COLUMN owner_process_start_id;"
            ∷ "ALTER TABLE tasks DROP COLUMN owner_pid;" ∷ [])))
        (some (codes "SELECT 1 FROM pragma_table_info('tasks') WHERE name='owner_pid'"))
    ∷ []
