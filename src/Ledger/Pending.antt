-- ===== src/Ledger/Pending.antt =====
-- orchestrator/spotcheck.py: `pending_rows`, the rows that the operator is asked to look at.
use agi_inspired.Prelude.{Bool, false, not, ◌&&◌, List, leb, keep, is_some}
use agi_inspired.Prelude.Sort.{sort_by}
use agi_inspired.Prelude.Text.{codes, text_eq}
use agi_inspired.Ledger.Rows.{
  done, queued, running, quota_wait, interrupted, infra_failed, failed, stale, blocked, Task,
  Ledger,
}
use agi_inspired.Ledger.Verdicts.{is_ai_performed}

unfoldable pub is_checkable : Task → Bool
unfolding text_eq
is_checkable t = elim t.status [
  | done ↦ not (text_eq t.mission_id (codes "canaries"))
  | queued ↦ false
  | running ↦ false
  | quota_wait ↦ false
  | interrupted ↦ false
  | infra_failed ↦ false
  | failed ↦ false
  | stale ↦ false
  | blocked ↦ false
]

unfoldable pub newest_first : Task → Task → Bool
newest_first a b = leb b.task_id a.task_id

-- The rows without a verdict, beside those whose last verdict is of the AI alone.
unfoldable pub pending_rows : Ledger → List Task × List Task
pending_rows l =
    let rows = sort_by newest_first (keep is_checkable l.tasks) in
    (
      keep (λ t. not (is_some t.human_verdict)) rows,
      keep (λ t. is_some t.human_verdict && is_ai_performed t.critic_notes) rows,
    )
