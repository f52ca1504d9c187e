-- ===== src/Ledger/Examples.antt =====
-- The ledger's operations at concrete inputs.
use agi_inspired.Prelude.{List, ◌≡◌, true, none, some, [], ◌∷◌, refl, arith}
use agi_inspired.Prelude.Text.{Text, codes}
use agi_inspired.Ledger.Rows.{Task, Ledger, quota_wait}
use agi_inspired.Ledger.Store.{
  new_row, start_task, Outcome, finish_task, record_intervention, update_model_used,
}
use agi_inspired.Ledger.Keys.{IsKeyed}
use agi_inspired.Ledger.Writes.{Frame, writes-Frame}
use agi_inspired.Ledger.Spend.{Attempt}
use agi_inspired.Ledger.Verdicts.{latest_human_note, is_ai_performed, marks_ai, ai_note}

abbrev spent : Task
spent = record (new_row (codes "r1") 0 (codes "m") (codes "s") (codes "c")) {
  tokens_in = some 900;
  tokens_out = some 100;
  interventions = none;
}

abbrev one_task : Ledger
one_task = record { tasks = spent ∷ []; next_id = 1; owner_columns = true }

one_task-IsKeyed : IsKeyed one_task
one_task-IsKeyed = omega arith

abbrev timed_out : Outcome
timed_out = record {
  artifacts = [];
  cost_usd = none;
  tokens_in = none;
  tokens_out = none;
  critic_verdict = none;
  critic_notes = some (codes "worker timeout");
  status = quota_wait;
  interventions = none;
  intervention_types = [];
  append_note = true;
  attempt_count = none;
}

writes-Frame_example :
    Frame 0 one_task (start_task 5 77 none 0 (codes "gpt") one_task)
    × Frame 0 one_task (finish_task 5 0 timed_out one_task)
    × Frame 0 one_task (record_intervention 0 (codes "cost") one_task).0
    × Frame 0 one_task (update_model_used 0 (codes "gpt") one_task)
writes-Frame_example =
    writes-Frame one_task 5 77 0 none (codes "gpt") (codes "cost") timed_out one_task-IsKeyed

-- A timeout, and a retry whose worker reports 500 tokens in.
abbrev two_attempts : List Attempt
two_attempts =
    record {
      started_at = 1;
      finished_at = 2;
      owner_pid = 77;
      identity = none;
      model = codes "gpt";
      usage = none;
      outcome = timed_out;
    }
    ∷ record {
      started_at = 3;
      finished_at = 4;
      owner_pid = 77;
      identity = none;
      model = codes "gpt";
      usage = some (some 500, none);
      outcome = timed_out;
    }
    ∷ []

abbrev ai_history : Text
ai_history = codes "ok | HUMAN(pass): AI-PERFORMED CHECK (by claude session)"

abbrev operator_note : Text
operator_note = codes "read it all; supersedes the earlier AI-PERFORMED CHECK"

ai_history_test : is_ai_performed (some ai_history) ≡ true
unfolding is_ai_performed latest_human_note ai_note marks_ai
ai_history_test = refl
