-- ===== src/Migrations/Backward.antt =====
-- `rollback` of orchestrator/migrations.py goes back one version at a time, and only over migrations
-- that can be reverted.
use agi_inspired.Prelude.{
  ℕ, ◌-◌, ◌<◌, ◌≡◌, ◌⊎◌, inl, inr, true, false, Option, none, some, List, [], ◌∷◌, All, is_some,
  Bool-cases, Option-cases, subst, refl, sym, ap, arith,
}
use agi_inspired.Prelude.Text.{Text}
use agi_inspired.Migrations.{
  Migration, Outcome, moved, failed, no_rollback_path, Sqlite, Database, to_revert, revert_all,
  rollback_file,
}

-- The versions of a list go down by one from `hi` and end above `lo`.
abbrev pub Descends : ℕ → ℕ → List Migration → Type 0
Descends hi lo [] = hi ≡ lo
Descends hi lo (m ∷ ms) = (m.version ≡ hi) × (lo < hi) × Descends (hi - 1) lo ms

module _ (sql : Sqlite) where
  -- Where a run that reverts a list ends: at `lo` with every script there, or with an error at a
  -- version that was still to go.
  abbrev Reverted : ℕ → List Migration → Database sql × Option Outcome → Type 0
  Reverted lo ms r =
      (r.1 ≡ none) × (r.0.user_version ≡ lo) × All (λ m. is_some m.down ≡ true) ms
      ⊎ ((e : Outcome) × (r.1 ≡ some e)
          × ((e ≡ failed r.0.user_version) ⊎ (e ≡ no_rollback_path r.0.user_version))
          × (lo < r.0.user_version))

  revert_stuck :
      (m : Migration) (ms : List Migration) (db : Database sql)
      → m.down ≡ none
      → revert_all sql (m ∷ ms) db ≡ (db, some (no_rollback_path m.version))
  unfolding revert_all
  revert_stuck m ms db e = rw (e, revert_all)

  revert_next :
      (m : Migration) (ms : List Migration) (db : Database sql) (script : Text)
      → m.down ≡ some script
      → (sql.run script db.rest).1 ≡ true
      → revert_all sql (m ∷ ms) db
        ≡ revert_all sql ms
            (record { user_version = m.version - 1; rest = (sql.run script db.rest).0 })
  unfolding revert_all
  revert_next m ms db script e ok = rw (e, ok, revert_all)

  revert_fails :
      (m : Migration) (ms : List Migration) (db : Database sql) (script : Text)
      → m.down ≡ some script
      → (sql.run script db.rest).1 ≡ false
      → revert_all sql (m ∷ ms) db
        ≡ (record db { rest = (sql.run script db.rest).0 }, some (failed m.version))
  unfolding revert_all
  revert_fails m ms db script e bad = rw (e, bad, revert_all)

  Reverted-next :
      (lo : ℕ) (m : Migration) (ms : List Migration) (r : Database sql × Option Outcome)
      (script : Text)
      → m.down ≡ some script
      → Reverted lo ms r
      → Reverted lo (m ∷ ms) r
  Reverted-next lo m ms r script e (inl (ok, v, all)) = inl (ok, v, (rw e refl, all))
  Reverted-next lo m ms r script e (inr w) = inr w

  revert_all-Reverted :
      (lo : ℕ) (ms : List Migration) (db : Database sql)
      → Descends db.user_version lo ms
      → Reverted lo ms (revert_all sql ms db)
  revert_all-Reverted lo [] db d = unfold revert_all in inl (refl, d, tt)
  revert_all-Reverted lo (m ∷ ms) db d = elim (Option-cases m.down) [
    | inl e ↦
        subst (Reverted lo (m ∷ ms)) (sym (revert_stuck m ms db e))
          (inr (no_rollback_path m.version, refl, inr (ap no_rollback_path d.0), d.1))
    | inr (script, e) ↦ elim (Bool-cases (sql.run script db.rest).1) [
      | inl ok ↦
          let back : Database sql = record {
            user_version = m.version - 1;
            rest = (sql.run script db.rest).0;
          } in
          subst (Reverted lo (m ∷ ms)) (sym (revert_next m ms db script e ok)) (
            Reverted-next lo m ms (revert_all sql ms back) script e
              (revert_all-Reverted lo ms back (rw d.0 d.2)))
      | inr bad ↦
          subst (Reverted lo (m ∷ ms)) (sym (revert_fails m ms db script e bad))
            (inr (failed m.version, refl, inl (ap failed d.0), d.1))
    ]
  ]

  -- Rolling back from above the target, where the versions to revert go down one by one to it: either
  -- every one of them had a script, all ran, and the database is at the target exactly; or the version
  -- stays at the migration that failed or that has no script, above the target.
  pub rollback_lem :
      (ms : List Migration) (target : ℕ) (db : Database sql)
      → target < db.user_version
      → Descends db.user_version target (to_revert ms target db.user_version)
      → let (db', out) = rollback_file sql ms target db in
        (out ≡ moved db.user_version target)
          × (db'.user_version ≡ target)
          × All (λ m. is_some m.down ≡ true) (to_revert ms target db.user_version)
        ⊎ ((out ≡ failed db'.user_version) ⊎ (out ≡ no_rollback_path db'.user_version))
          × (target < db'.user_version)
  unfolding rollback_file
  rollback_lem ms target db h d =
      ground (arith, revert_all-Reverted target (to_revert ms target db.user_version) db d)
