-- ===== src/Scheduler/Examples.antt =====
-- The scheduler's operations at concrete inputs.
use agi_inspired.Prelude.{
  ℕ, ◌≡◌, true, false, Bool, some, List, [], ◌∷◌, map, count, if◌then◌else◌, ◌==◌, refl,
}
use agi_inspired.Prelude.Text.{Text, codes}
use agi_inspired.Ledger.Rows.{Task, Ledger, running}
use agi_inspired.Ledger.Store.{new_row}
use agi_inspired.Scheduler.Recovery.{
  Inspection, absent, unknown, is_lost, reconcile_interrupted_tasks,
}
use agi_inspired.Scheduler.Reconciled.{Fates, reconcile-Fates}
use agi_inspired.Scheduler.Parked.{is_expired, is_parked, is_of_week, expire_stale_parked}
use agi_inspired.Scheduler.Queue.{Queued, queue_seeds, queue_mission_tasks}
use agi_inspired.Scheduler.Fairness.{ordered, FairOrder, queue_order}

-- Process 7 is gone, and no other can be inspected.
inspect : ℕ → Inspection
inspect pid = if pid == 7 then absent else unknown

abbrev week : Text
week = codes "2026-W31"

abbrev crashed : Task
crashed = record (new_row (codes "r1") 0 (codes "m") (codes "[2026-W30][seed 1] a") (codes "c")) {
  status = running;
  started_at = some 100;
  owner_pid = some 7;
  owner_process_start_id = some (codes "linux-proc:x:1");
  lease_expires_at = some 4300;
}

abbrev parked : Task
parked = new_row (codes "r1") 1 (codes "m") (codes "[2026-W30][seed 2] b") (codes "c")

abbrev two_tasks : Ledger
two_tasks = record { tasks = crashed ∷ parked ∷ []; next_id = 2; owner_columns = true }

abbrev seeds : List Text
seeds = codes "compare prices" ∷ codes "read reviews" ∷ []

reconcile-Fates_example :
    Fates inspect 200 two_tasks.tasks (reconcile_interrupted_tasks inspect 200 two_tasks).0.tasks
    × ((reconcile_interrupted_tasks inspect 200 two_tasks).1
        ≡ count (is_lost inspect 200) two_tasks.tasks)
reconcile-Fates_example = reconcile-Fates inspect 200 two_tasks

queue_order_example :
    ((queue_mission_tasks (codes "r2") week (codes "m") (codes "c") false seeds two_tasks).1
      ≡ map
          (λ r. r.task_id)
          (ordered (codes "r2") week (codes "m") (codes "c") false seeds two_tasks))
    × FairOrder (ordered (codes "r2") week (codes "m") (codes "c") false seeds two_tasks)
    × ((p : Queued → Bool)
        → count p (ordered (codes "r2") week (codes "m") (codes "c") false seeds two_tasks)
          ≡ count p
              (queue_seeds (codes "r2") week (codes "m") (codes "c") false 1 seeds two_tasks).1)
queue_order_example = queue_order (codes "r2") week (codes "m") (codes "c") false seeds two_tasks

expire_test : (expire_stale_parked week two_tasks).1 ≡ 1
unfolding expire_stale_parked count is_expired is_parked is_of_week
expire_test = refl
