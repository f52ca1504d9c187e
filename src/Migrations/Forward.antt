-- ===== src/Migrations/Forward.antt =====
-- `migrate` of orchestrator/migrations.py goes forward, to the newest version, and a failure can be
-- resumed.
use agi_inspired.Prelude.{
  ℕ, ◌≤◌, ◌≡◌, ◌⊎◌, inl, inr, Bool, true, false, Option, none, some, List, [], ◌∷◌, All, ltb, leb,
  leb→le, keep, keep-no, All-keep, All-of-keep, subst, if◌then◌else◌, Bool-cases, refl, sym, ap,
  ◌∙◌, arith,
}
use mathlib.Core.Path.{subst₂}
use agi_inspired.Prelude.Sort.{
  sort_by, IsSorted, sort_by-IsSorted, All-sort_by, sort_by-All, All-map,
}
use agi_inspired.Migrations.{
  report, Migration, moved, failed, Sqlite, Database, apply_migration, apply_all, pending,
  migrate_file,
}

abbrev older : Migration → Migration → Bool
older a b = leb a.version b.version

module _ (sql : Sqlite) where
  apply_version :
      (m : Migration) (db : Database sql)
      → (apply_migration sql m db).0.user_version
        ≡ (if (apply_migration sql m db).1 then m.version else db.user_version)
  unfolding apply_migration
  apply_version m db = ground arith

  apply_next :
      (m : Migration) (ms : List Migration) (db : Database sql)
      → (apply_migration sql m db).1 ≡ true
      → apply_all sql (m ∷ ms) db ≡ apply_all sql ms (apply_migration sql m db).0
  unfolding apply_all
  apply_next m ms db e = rw (e, apply_all)

  apply_stop :
      (m : Migration) (ms : List Migration) (db : Database sql)
      → (apply_migration sql m db).1 ≡ false
      → apply_all sql (m ∷ ms) db ≡ ((apply_migration sql m db).0, some m.version)
  unfolding apply_all
  apply_stop m ms db e = rw (e, apply_all)

  -- The version after a round that succeeds, and after one that fails.
  applied_version :
      (m : Migration) (db : Database sql)
      → (apply_migration sql m db).1 ≡ true
      → (apply_migration sql m db).0.user_version ≡ m.version
  applied_version m db e = apply_version m db ∙ rw e refl

  failed_version :
      (m : Migration) (db : Database sql)
      → (apply_migration sql m db).1 ≡ false
      → (apply_migration sql m db).0.user_version ≡ db.user_version
  failed_version m db e = apply_version m db ∙ rw e refl

  -- Where a run over migrations in order ends: no lower than it began; after a success at or above
  -- every version of the list, and after a failure at most at the version that failed.
  abbrev Ends : List Migration → Database sql → Database sql × Option ℕ → Type 0
  Ends ms db r =
      (db.user_version ≤ r.0.user_version)
      × ((r.1 ≡ none) × All (λ m. m.version ≤ r.0.user_version) ms
          ⊎ ((v : ℕ) × (r.1 ≡ some v) × (r.0.user_version ≤ v)))

  Ends-next :
      (m : Migration) (ms : List Migration) (db mid : Database sql) (r : Database sql × Option ℕ)
      → mid.user_version ≡ m.version
      → db.user_version ≤ m.version
      → Ends ms mid r
      → Ends (m ∷ ms) db r
  Ends-next m ms db mid r v h (up, inl (ok, all)) = (omega arith, inl (ok, (omega arith, all)))
  Ends-next m ms db mid r v h (up, inr w) = (omega arith, inr w)

  apply_all-Ends :
      (ms : List Migration) (db : Database sql)
      → IsSorted older ms
      → All (λ m. db.user_version ≤ m.version) ms
      → Ends ms db (apply_all sql ms db)
  apply_all-Ends [] db s h = unfold apply_all in (omega arith, inl (refl, tt))
  apply_all-Ends (m ∷ ms) db s h = elim (Bool-cases (apply_migration sql m db).1) [
    | inl e ↦
        let mid = (apply_migration sql m db).0 in
        let v = applied_version m db e in
        subst (Ends (m ∷ ms) db) (sym (apply_next m ms db e)) (
          Ends-next m ms db mid (apply_all sql ms mid) v h.0 (
            apply_all-Ends ms mid s.1 (
              All-map (λ n. older m n ≡ true) (λ n. mid.user_version ≤ n.version) ms
                (λ n o. rw v (leb→le m.version n.version o)) s.0)))
    | inr e ↦
        let v = failed_version m db e in
        subst (Ends (m ∷ ms) db) (sym (apply_stop m ms db e))
          (omega (arith, v), inr (m.version, refl, omega (arith, v, h.0)))
  ]

older-total : (a b : Migration) → older a b ≡ false → older b a ≡ true
older-total a b h = ground arith

older_trans : (a b c : Migration) → older a b ≡ true → older b c ≡ true → older a c ≡ true
older_trans a b c h k = ground arith

pending-IsSorted : (ms : List Migration) (n : ℕ) → IsSorted older (pending ms n)
unfolding pending
pending-IsSorted ms n = sort_by-IsSorted older older-total older_trans _

pending-later : (ms : List Migration) (n : ℕ) → All (λ m. ltb n m.version ≡ true) (pending ms n)
unfolding pending
pending-later ms n = All-sort_by older (λ m. ltb n m.version ≡ true) _ (All-keep _ ms)

keep_none :
    (ms : List Migration) (n : ℕ)
    → All (λ m. m.version ≤ n) ms
    → keep (λ m. ltb n m.version) ms ≡ []
keep_none [] n h = unfold keep in refl
keep_none (m ∷ ms) n h = keep-no (λ k. ltb n k.version) m ms (ground arith) ∙ keep_none ms n h.1

module _ (sql : Sqlite) (ms : List Migration) (db : Database sql) where
  ended : Database sql × Option ℕ
  ended = apply_all sql (pending ms db.user_version) db

  ended-Ends : Ends sql (pending ms db.user_version) db ended
  unfolding ended
  ended-Ends =
      apply_all-Ends sql (pending ms db.user_version) db (pending-IsSorted ms db.user_version) (
        All-map (λ m. ltb db.user_version m.version ≡ true) (λ m. db.user_version ≤ m.version) _
          (λ m h. ground arith) (pending-later ms db.user_version))

  migrate_database : (migrate_file sql ms db).0 ≡ ended.0
  unfolding migrate_file ended
  migrate_database = refl

  migrate_done :
      ended.1 ≡ none → (migrate_file sql ms db).1 ≡ moved db.user_version ended.0.user_version
  unfolding migrate_file ended
  migrate_done e = rw (e, migrate_file)

  migrate_failed : (v : ℕ) → ended.1 ≡ some v → (migrate_file sql ms db).1 ≡ failed v
  unfolding migrate_file ended
  migrate_failed v e = rw (e, migrate_file)

nothing_pending :
    (sql : Sqlite) (ms : List Migration) (db : Database sql)
    → All (λ m. m.version ≤ db.user_version) ms
    → migrate_file sql ms db ≡ (db, moved db.user_version db.user_version)
unfolding migrate_file pending apply_all sort_by
nothing_pending sql ms db h =
    ap (λ (p : List Migration). report sql db.user_version (apply_all sql (sort_by older p) db))
      (keep_none ms db.user_version h)

-- What a success reports: where the migration began and ended. It never goes back, ends at or above
-- the version of every registered migration, and leaves nothing to do: a second call changes nothing.
abbrev pub Newest : (sql : Sqlite) → List Migration → Database sql → Database sql → ℕ → ℕ → Type 0
Newest sql ms db db' from to =
    (from ≡ db.user_version)
    × (to ≡ db'.user_version)
    × (from ≤ to)
    × All (λ m. m.version ≤ to) ms
    × (migrate_file sql ms db' ≡ (db', moved to to))

module _ (sql : Sqlite) (ms : List Migration) (db : Database sql) where
  Newest-of_done :
      All (λ m. m.version ≤ (ended sql ms db).0.user_version) (pending ms db.user_version)
      → db.user_version ≤ (ended sql ms db).0.user_version
      → Newest sql ms db (ended sql ms db).0 db.user_version (ended sql ms db).0.user_version
  Newest-of_done all up =
      let all' : All (λ m. m.version ≤ (ended sql ms db).0.user_version) ms =
        All-of-keep (λ m. ltb db.user_version m.version)
          (λ m. m.version ≤ (ended sql ms db).0.user_version) ms (λ m h. ground arith)
          (sort_by-All older (λ m. m.version ≤ (ended sql ms db).0.user_version) _
            (unfold pending in all)) in
      (refl, refl, up, all', nothing_pending sql ms (ended sql ms db).0 all')

  -- A migration that succeeds reports where it began and ended, never goes back, ends at or above the
  -- version of every registered migration, and leaves nothing to do: a second call changes nothing.
  pub migrate-Newest :
      (from to : ℕ)
      → (migrate_file sql ms db).1 ≡ moved from to
      → Newest sql ms db (migrate_file sql ms db).0 from to
  migrate-Newest from to h = elim (ended-Ends sql ms db).1 [
    | inl (ok, all) ↦
        let e : moved db.user_version (ended sql ms db).0.user_version ≡ moved from to =
          sym (migrate_done sql ms db ok) ∙ h in
        subst (λ d. Newest sql ms db d from to) (sym (migrate_database sql ms db))
          (subst₂ (Newest sql ms db (ended sql ms db).0) (cc) (cc)
            (Newest-of_done all (ended-Ends sql ms db).0))
    | inr (v, bad, _) ↦ absurd (cc (migrate_failed sql ms db v bad, h))
  ]

  -- A migration that fails never goes back, and ends at most at the version that failed.
  migrate_fails :
      (v : ℕ)
      → (migrate_file sql ms db).1 ≡ failed v
      → (db.user_version ≤ (migrate_file sql ms db).0.user_version)
        × ((migrate_file sql ms db).0.user_version ≤ v)
  migrate_fails v h = elim (ended-Ends sql ms db).1 [
    | inl (ok, all) ↦ absurd (cc (migrate_done sql ms db ok, h))
    | inr (w, bad, le) ↦
        let e : w ≡ v = cc (migrate_failed sql ms db w bad, h) in
        rw (migrate_database sql ms db) ((ended-Ends sql ms db).0, rw (← e) le)
  ]
