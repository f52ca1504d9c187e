-- ===== src/Scheduler/Recovery.antt =====
-- orchestrator/scheduler.py: `reconcile_interrupted_tasks`. What the operating system says of a
-- process (`runlock._process_start_identity`) is an argument, and so is the time.
use agi_inspired.Prelude.{
  ℕ, ◌+◌, Bool, true, false, not, ◌&&◌, ◌||◌, Option, none, some, List, [], ◌∷◌, ◌++◌, ltb, leb,
  if◌then◌else◌, or_else,
}
use agi_inspired.Prelude.Text.{Text, codes, text_eq}
use agi_inspired.Ledger.Rows.{Status, running, interrupted, failed, Task, Ledger, show_number}
use agi_inspired.Ledger.Store.{max_task_attempts}

-- The three results of an inspection: no such process, its start identity, or an `OSError`.
pub data Inspection : Type 0 where
  absent unknown : Inspection
  identity : Text → Inspection

-- Whether the process that was found is not the recorded one.
unfoldable pub is_gone : Text → Inspection → Bool
unfolding text_eq
is_gone recorded absent = true
is_gone recorded unknown = false
is_gone recorded (identity current) = not (text_eq current recorded)

unfoldable pub is_running : Status → Bool
is_running running = true
is_running _ = false

module _ (inspect : ℕ → Inspection) where
  -- A recorded owner that is positively gone. Without an exact identity nothing is concluded.
  unfoldable pub owner_is_orphan : Option ℕ → Option Text → Bool
  unfolding is_gone
  owner_is_orphan none recorded = false
  owner_is_orphan (some pid) none = false
  owner_is_orphan (some pid) (some []) = false
  owner_is_orphan (some pid) (some (c ∷ t)) = is_gone (c ∷ t) (inspect pid)

  unfoldable pub immediate_orphan : Task → Bool
  immediate_orphan t = owner_is_orphan t.owner_pid t.owner_process_start_id

unfoldable pub lease_over : ℕ → Option ℕ → Bool
lease_over now none = true
lease_over now (some at) = ltb at now

unfoldable pub attempts_of : Task → ℕ
attempts_of t = or_else t.attempt_count 0 + 1

module _ (inspect : ℕ → Inspection) (now : ℕ) where
  unfoldable pub is_lost : Task → Bool
  unfolding immediate_orphan lease_over is_running
  is_lost t =
      is_running t.status && (immediate_orphan inspect t || lease_over now t.lease_expires_at)

  unfoldable pub recovery_note : Task → Text
  unfolding immediate_orphan
  recovery_note t =
      if immediate_orphan inspect t
      then codes " | recovered from an orphaned running state (dead owner process, attempt "
      else codes " | recovered from an orphaned running state (attempt "

  -- The two updates of a lost row: it is given up at the cap, and else goes back for a retry.
  unfoldable pub recovered : Task → Task
  unfolding attempts_of
  recovered t =
      if leb max_task_attempts (attempts_of t)
      then record t {
        status = failed;
        attempt_count = some (attempts_of t);
        critic_notes = some (
            or_else t.critic_notes []
            ++ codes " | gave up after "
            ++ show_number (attempts_of t)
            ++ codes " interruptions (crash/power-loss recovery cap)");
      }
      else record t {
        status = interrupted;
        attempt_count = some (attempts_of t);
        critic_notes = some (
            or_else t.critic_notes []
            ++ recovery_note t
            ++ show_number (attempts_of t)
            ++ codes ")");
      }

  unfoldable pub reconcile_row : Task → Task
  reconcile_row t = if is_lost t then recovered t else t

  -- The rows after the loop, beside the number of rows recovered and given up.
  unfoldable pub reconcile_rows : List Task → List Task × ℕ
  reconcile_rows [] = ([], 0)
  reconcile_rows (t ∷ ts) =
      let (rest, n) = reconcile_rows ts in
      (reconcile_row t ∷ rest, (if is_lost t then n + 1 else n))

  unfoldable pub reconcile_interrupted_tasks : Ledger → Ledger × ℕ
  reconcile_interrupted_tasks l =
      let (tasks, n) = reconcile_rows l.tasks in (record l { tasks = tasks }, n)
