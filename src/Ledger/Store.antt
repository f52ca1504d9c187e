-- ===== src/Ledger/Store.antt =====
-- orchestrator/ledger.py: the operations that write the table `tasks`. The clock, the process's
-- identity and its `RUN_ID` are arguments.
use agi_inspired.Prelude.{
  ℕ, ◌+◌, Bool, Option, none, some, List, [], ◌∷◌, ◌++◌, length, if◌then◌else◌, or_else,
}
use agi_inspired.Prelude.Text.{Text, codes}
use agi_inspired.Ledger.Rows.{
  Status, queued, running, Verdict, Kinds, null, unreadable, kinds, Task, Ledger,
  is_terminal_status, update_row, find_row, coalesce, sql_trim,
}

abbrev pub lease_seconds : ℕ
lease_seconds = 4200

abbrev pub max_task_attempts : ℕ
max_task_attempts = 3

abbrev pub new_row : Text → ℕ → Text → Text → Text → Task
new_row run_id id mission_id spec pass_criteria = record {
  task_id = id;
  mission_id = mission_id;
  spec = spec;
  pass_criteria = pass_criteria;
  status = queued;
  started_at = none;
  finished_at = none;
  model_used = none;
  tokens_in = some 0;
  tokens_out = some 0;
  cost_usd = some 0;
  artifacts = [];
  critic_verdict = none;
  critic_notes = none;
  human_verdict = none;
  interventions = some 0;
  intervention_types = null;
  run_id = some run_id;
  lease_expires_at = none;
  attempt_count = some 0;
  owner_pid = none;
  owner_process_start_id = none;
}

-- Returns the new row's id beside the ledger.
unfoldable pub queue_task : Text → Text → Text → Text → Ledger → Ledger × ℕ
queue_task run_id mission_id spec pass_criteria l = (
  record l {
    tasks = l.tasks ++ new_row run_id l.next_id mission_id spec pass_criteria ∷ [];
    next_id = l.next_id + 1;
  },
  l.next_id,
)

abbrev pub started : ℕ → Text → Task → Task
started now model_used t = record t {
  status = running;
  started_at = some now;
  model_used = some model_used;
  lease_expires_at = some (now + lease_seconds);
}

-- The second `UPDATE` is the one for schemas without the owner's columns.
unfoldable pub start_task : ℕ → ℕ → Option Text → ℕ → Text → Ledger → Ledger
start_task now owner_pid identity task_id model_used l =
    if l.owner_columns
    then record l {
      tasks =
          update_row task_id
            (λ t. record (started now model_used t) {
              owner_pid = some owner_pid;
              owner_process_start_id = identity;
            })
            l.tasks;
    }
    else record l { tasks = update_row task_id (started now model_used) l.tasks }

-- The keyword arguments of `finish_task`; one that is left out is `none`.
pub record Outcome : Type 0 where
  pub artifacts : List Text
  pub cost_usd : Option ℕ
  pub tokens_in : Option ℕ
  pub tokens_out : Option ℕ
  pub critic_verdict : Option Verdict
  pub critic_notes : Option Text
  pub status : Status
  pub interventions : Option ℕ
  pub intervention_types : List Text
  pub append_note : Bool
  pub attempt_count : Option ℕ

-- `json.dumps(intervention_types) if intervention_types else None`, under COALESCE
unfoldable pub coalesce_kinds : List Text → Kinds → Kinds
coalesce_kinds [] old = old
coalesce_kinds (k ∷ ks) old = kinds (k ∷ ks)

unfoldable pub finished_notes : Outcome → Option Text → Option Text
unfolding coalesce sql_trim
finished_notes o old =
    if o.append_note
    then some (sql_trim (or_else old [] ++ codes " | " ++ or_else o.critic_notes []))
    else coalesce o.critic_notes old

unfoldable pub finished : ℕ → Outcome → Task → Task
finished now o t = record t {
  status = o.status;
  finished_at = coalesce (if is_terminal_status o.status then some now else none) t.finished_at;
  artifacts = o.artifacts;
  cost_usd = coalesce o.cost_usd t.cost_usd;
  tokens_in = coalesce o.tokens_in t.tokens_in;
  tokens_out = coalesce o.tokens_out t.tokens_out;
  critic_verdict = coalesce o.critic_verdict t.critic_verdict;
  critic_notes = finished_notes o t.critic_notes;
  interventions = coalesce o.interventions t.interventions;
  intervention_types = coalesce_kinds o.intervention_types t.intervention_types;
  attempt_count = coalesce o.attempt_count t.attempt_count;
}

unfoldable pub finish_task : ℕ → ℕ → Outcome → Ledger → Ledger
finish_task now task_id o l = record l { tasks = update_row task_id (finished now o) l.tasks }

-- What `record_intervention` reads from the column: anything but a list counts as no kinds.
unfoldable pub read_kinds : Kinds → List Text
read_kinds null = []
read_kinds unreadable = []
read_kinds (kinds ks) = ks

unfoldable pub intervened : List Text → Task → Task
intervened ks t = record t {
  interventions = some (or_else t.interventions 0 + 1);
  intervention_types = kinds ks;
}

-- Returns the number of kinds recorded, or 0 for a task that is not there.
unfoldable pub record_intervention : ℕ → Text → Ledger → Ledger × ℕ
record_intervention task_id kind l = elim (find_row task_id l.tasks) [
  | none ↦ (l, 0)
  | some row ↦
      let ks = read_kinds row.intervention_types ++ kind ∷ [] in
      (record l { tasks = update_row task_id (intervened ks) l.tasks }, length ks)
]

unfoldable pub update_model_used : ℕ → Text → Ledger → Ledger
update_model_used task_id model_used l = record l {
  tasks = update_row task_id (λ t. record t { model_used = some model_used }) l.tasks;
}

-- orchestrator/scheduler.py: `accumulated_tokens`, an attempt's use beside what the row holds.
unfoldable pub accumulated_tokens : Option ℕ → Option ℕ → Option ℕ → Option ℕ → ℕ × ℕ
accumulated_tokens input_tokens output_tokens prior_in prior_out =
    (or_else input_tokens 0 + or_else prior_in 0, or_else output_tokens 0 + or_else prior_out 0)
