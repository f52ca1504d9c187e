-- ===== src/Scheduler/Queue.antt =====
-- orchestrator/scheduler.py: `queue_mission_tasks`, which queues the seeds of a mission for this week
-- and returns the ids of the tasks to run. The week, the process's run id and the mission's pass
-- criteria are arguments.
use agi_inspired.Prelude.{
  ℕ, ◌+◌, Bool, true, false, ◌&&◌, ◌||◌, Option, none, some, List, [], ◌∷◌, ◌++◌, map, leb,
  if◌then◌else◌, is_some,
}
use agi_inspired.Prelude.Text.{Text, codes, text_eq}
use agi_inspired.Prelude.Sort.{sort_by}
use agi_inspired.Ledger.Rows.{
  Status, quota_wait, queued, interrupted, infra_failed, Task, Ledger, show_number,
}
use agi_inspired.Ledger.Store.{queue_task}

-- RESUMABLE_STATUSES
unfoldable pub is_resumable : Status → Bool
is_resumable quota_wait = true
is_resumable queued = true
is_resumable interrupted = true
is_resumable infra_failed = true
is_resumable _ = false

-- `SELECT ... WHERE mission_id=? AND spec=?`, first row.
unfoldable pub find_spec : Text → Text → List Task → Option Task
unfolding text_eq
find_spec mission_id spec [] = none
find_spec mission_id spec (t ∷ ts) =
    if text_eq t.mission_id mission_id && text_eq t.spec spec
    then some t
    else find_spec mission_id spec ts

-- A pair of `rows`: a task and whether and when it was started.
pub record Queued : Type 0 where
  pub task_id : ℕ
  pub started_at : Option ℕ

-- The order by the key `(started_at is not None, task_id)`.
unfoldable pub runs_before : Queued → Queued → Bool
runs_before a b =
    if is_some a.started_at
    then is_some b.started_at && leb a.task_id b.task_id
    else is_some b.started_at || leb a.task_id b.task_id

-- f"[{wk}][seed {i}] {seed}"
unfoldable pub seed_spec : Text → ℕ → Text → Text
seed_spec week i seed = codes "[" ++ week ++ codes "][seed " ++ show_number i ++ codes "] " ++ seed

module _ (run_id week mission_id criteria : Text) (dry : Bool) where
  -- The loop over the seeds from number `i` on: the ledger after it, and `rows`.
  unfoldable pub queue_seeds : ℕ → List Text → Ledger → Ledger × List Queued
  queue_seeds i [] l = (l, [])
  queue_seeds i (seed ∷ seeds) l = elim (find_spec mission_id (seed_spec week i seed) l.tasks) [
    | some t ↦
        let (l', rows) = queue_seeds (i + 1) seeds l in
        (
          l',
          (if is_resumable t.status
              then record { task_id = t.task_id; started_at = t.started_at } ∷ rows
              else rows),
        )
    | none ↦ elim dry [
      | true ↦ queue_seeds (i + 1) seeds l
      | false ↦
          let (l₁, id) = queue_task run_id mission_id (seed_spec week i seed) criteria l in
          let (l', rows) = queue_seeds (i + 1) seeds l₁ in
          (l', record { task_id = id; started_at = none } ∷ rows)
    ]
  ]

  unfoldable pub queue_mission_tasks : List Text → Ledger → Ledger × List ℕ
  queue_mission_tasks seeds l =
      let (l', rows) = queue_seeds 1 seeds l in
      (l', map (λ r. r.task_id) (sort_by runs_before rows))
