-- ===== src/Scheduler/Parked.antt =====
-- orchestrator/scheduler.py: `expire_stale_parked` and `is_first_run_for_mission`. The ISO week of the run is an argument.
use agi_inspired.Prelude.{
  ℕ, ◌≡◌, ◌⊎◌, inl, inr, Bool, true, false, not, ◌&&◌, some, List, [], ◌∷◌, ◌++◌, All, any, count,
  if◌then◌else◌, or_else, is_some, Bool-cases, refl,
}
use agi_inspired.Prelude.Text.{Text, codes, lower, starts_with, text_eq}
use agi_inspired.Ledger.Rows.{Status, done, queued, quota_wait, stale, Task, Ledger, sql_trim}

unfoldable pub is_parked : Status → Bool
is_parked quota_wait = true
is_parked queued = true
is_parked _ = false

unfoldable is_done : Status → Bool
is_done done = true
is_done _ = false

module _ (week : Text) where
  -- `spec LIKE '[week]%'`; LIKE ignores the case of ASCII letters.
  unfoldable pub is_of_week : Text → Bool
  unfolding lower starts_with
  is_of_week spec = starts_with (lower spec) (lower (b'[' ∷ week ++ b']' ∷ []))

  -- Whether no row of the mission from another week is done.
  unfoldable is_first_run_for_mission : Text → List Task → Bool
  unfolding any text_eq is_of_week
  is_first_run_for_mission mission tasks =
      not (
        any (λ t. text_eq t.mission_id mission && is_done t.status && not (is_of_week t.spec))
          tasks)

  unfoldable pub is_expired : Task → Bool
  unfolding is_parked
  is_expired t = is_parked t.status && not (is_of_week t.spec)

  unfoldable pub expired : Task → Task
  unfolding sql_trim
  expired t = record t {
    status = stale;
    critic_notes = some (
        sql_trim (
          or_else t.critic_notes []
          ++ (if is_some t.started_at
              then codes " | expired: superseded by new week"
              else codes " | expired: NEVER ATTEMPTED, superseded by the new week")));
  }

  unfoldable pub expire_rows : List Task → List Task
  expire_rows [] = []
  expire_rows (t ∷ ts) = (if is_expired t then expired t else t) ∷ expire_rows ts

  -- The rows, beside the two counts of the log line: all that expired, and the never attempted ones.
  unfoldable pub expire_stale_parked : Ledger → Ledger × ℕ × ℕ
  expire_stale_parked l = (
    record l { tasks = expire_rows l.tasks },
    count is_expired l.tasks,
    count (λ t. is_expired t && not (is_some t.started_at)) l.tasks,
  )

  abbrev pub SameOrExpired : List Task → List Task → Type 0
  SameOrExpired [] [] = Unit
  SameOrExpired [] (u ∷ us) = ⊥
  SameOrExpired (t ∷ ts) [] = ⊥
  SameOrExpired (t ∷ ts) (u ∷ us) =
      ((is_parked t.status ≡ true)
          × (is_of_week t.spec ≡ false)
          × (u ≡ record t { status = stale; critic_notes = u.critic_notes })
        ⊎ ((is_parked t.status ≡ false) ⊎ (is_of_week t.spec ≡ true)) × (u ≡ t))
      × SameOrExpired ts us

  expire_row_lem :
      (t : Task)
      → let u = if is_expired t then expired t else t in
        (is_parked t.status ≡ true)
          × (is_of_week t.spec ≡ false)
          × (u ≡ record t { status = stale; critic_notes = u.critic_notes })
        ⊎ ((is_parked t.status ≡ false) ⊎ (is_of_week t.spec ≡ true)) × (u ≡ t)
  unfolding is_expired
  expire_row_lem t = elim (Bool-cases (is_parked t.status)) [
    | inl p ↦ elim (Bool-cases (is_of_week t.spec)) [
      | inl w ↦ inr (inr w, rw (p, w))
      | inr w ↦ inl (p, w, simp (p, w) (unfold expired in refl))
    ]
    | inr p ↦ inr (inl p, rw p)
  ]

  expire_rows_lem : (ts : List Task) → SameOrExpired ts (expire_rows ts)
  unfolding expire_rows
  expire_rows_lem [] = tt
  expire_rows_lem (t ∷ ts) = (expire_row_lem t, expire_rows_lem ts)

  expire_row_left :
      (t : Task)
      → let u = if is_expired t then expired t else t in
        (is_parked u.status ≡ false) ⊎ (is_of_week u.spec ≡ true)
  unfolding is_expired expired is_parked
  expire_row_left t = elim (Bool-cases (is_parked t.status)) [
    | inl p ↦ elim (Bool-cases (is_of_week t.spec)) [
      | inl w ↦ inr (simp (p, w))
      | inr w ↦ inl (simp (p, w))
    ]
    | inr p ↦ inl (simp p)
  ]

  expire_rows_left :
      (ts : List Task)
      → All (λ t. (is_parked t.status ≡ false) ⊎ (is_of_week t.spec ≡ true)) (expire_rows ts)
  unfolding expire_rows
  expire_rows_left [] = tt
  expire_rows_left (t ∷ ts) = (expire_row_left t, expire_rows_left ts)

  -- A row changes exactly when it is queued or waits for quota under another week's spec, and then
  -- only to `stale` and in its notes; afterwards no such row is left. Interrupted rows and rows of
  -- this week stay as they are.
  expire_lem :
      (l : Ledger)
      → SameOrExpired l.tasks (expire_stale_parked l).0.tasks
        × All
            (λ t. (is_parked t.status ≡ false) ⊎ (is_of_week t.spec ≡ true))
            (expire_stale_parked l).0.tasks
  unfolding expire_stale_parked
  expire_lem l = (expire_rows_lem l.tasks, expire_rows_left l.tasks)
