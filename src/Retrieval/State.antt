-- ===== src/Retrieval/State.antt =====
-- orchestrator/retrieval_progress.py: `RetrievalState`, the controller's fields and what it writes:
-- decisions for the caller, audit records and trajectory calls.
use agi_inspired.Prelude.{ℕ, ◌+◌, Bool, false, if◌then◌else◌, List, [], ◌∷◌, ◌++◌, ltb}
use agi_inspired.Prelude.{Option, none, some}
use agi_inspired.Prelude.Text.{Text}
use agi_inspired.Retrieval.Policy.{Rungs, total, RetrievalPolicy}

pub record RetrievalState : Type 0 where
  pub stage : ℕ
  pub calls : Rungs
  pub reserved : Rungs
  pub low_novelty_streak : ℕ
  pub urls : List Text
  pub fingerprints : List Text
  pub vocabulary : List Text
  pub sequence : ℕ
  pub redirect_violations : ℕ
  pub evidence_chars : ℕ
  pub finalization_calls : ℕ
  pub rejected_calls : ℕ
  pub setup_calls : ℕ
  pub batch_active : Bool
  pub batch_redirect_violation_counted : Bool

-- `STAGE_NAMES[stage]`, and `partial_result` from stage 3 on.
pub data Strategy : Type 0 where
  search direct_fetch browser partial_result : Strategy

unfoldable pub strategy : ℕ → Strategy
strategy n =
    if ltb n 1
    then search
    else if ltb n 2
    then direct_fetch
    else if ltb n 3
    then browser
    else partial_result

-- Why a call is refused. The texts of the messages are not modelled.
pub data Refusal : Type 0 where
  research_complete setup_exhausted delegation retrieval_exhausted wrong_stage budget_spent :
      Refusal

pub data Reason : Type 0 where
  call_budget_reached low_novelty : Reason

pub data TerminalReason : Type 0 where
  not_terminal consecutive_feedback_violations global_rejection_ceiling : TerminalReason

pub data ResultClass : Type 0 where
  timeout challenge_or_access_block tool_error ok : ResultClass

-- The dictionary that `_redirect` returns; its `code` is `retrieval_strategy_halt` if `terminal`.
pub record Redirect : Type 0 where
  pub refusal : Refusal
  pub count : ℕ
  pub terminal : Bool

-- The dictionary that `_after_locked` returns when it has moved on.
pub record Transition : Type 0 where
  pub source : Strategy
  pub target : Strategy
  pub reason : Reason
  pub count : ℕ

pub record Observation : Type 0 where
  pub tool : Text
  pub stage : Strategy
  pub novel : Bool
  pub new_urls : ℕ
  pub new_words : ℕ
  pub failed : Bool
  pub stale : Bool
  pub result_chars : ℕ
  pub result_class : ResultClass

pub data AuditEvent : Type 0 where
  setup : Text → AuditEvent
  observation : Observation → AuditEvent
  transition : Strategy → Strategy → Reason → AuditEvent
  redirect : Text → Bool → ℕ → ℕ → Bool → TerminalReason → AuditEvent
  finalization_started : ℕ → ℕ → AuditEvent
  research_finished : ℕ → ℕ → AuditEvent
  finalization_finished : Bool → AuditEvent

pub record AuditRecord : Type 0 where
  pub sequence : ℕ
  pub event : AuditEvent
  pub required_strategy : Strategy
  pub executed_calls : ℕ

-- The calls that the controller makes on its trajectory writer.
pub data TrajectoryCall : Type 0 where
  tool_call_finished : Text → Strategy → ℕ → Bool → ℕ → TrajectoryCall
  strategy_transition : Strategy → Strategy → Reason → TrajectoryCall
  tool_redirect : Text → Strategy → Bool → TrajectoryCall
  finalization_started_call : ℕ → ℕ → TrajectoryCall
  finalization_finished_call : Bool → TrajectoryCall

pub record Evidence : Type 0 where
  pub sequence : ℕ
  pub stage : Strategy
  pub tool : Text
  pub failed : Bool
  pub urls : List Text
  pub content : Text

-- `audited` is `audit_path is not None` and `traced` is `trajectory_writer` being set; `audit` and
-- `trajectory` are what was written through them.
pub record Controller : Type 0 where
  pub policy : RetrievalPolicy
  pub state : RetrievalState
  pub evidence : List Evidence
  pub audited : Bool
  pub audit : List AuditRecord
  pub traced : Bool
  pub trajectory : List TrajectoryCall

abbrev no_calls : Rungs
no_calls = record { search = 0; direct_fetch = 0; browser = 0 }

abbrev pub initial_state : ℕ → RetrievalState
initial_state stage = record {
  stage = stage;
  calls = no_calls;
  reserved = no_calls;
  low_novelty_streak = 0;
  urls = [];
  fingerprints = [];
  vocabulary = [];
  sequence = 0;
  redirect_violations = 0;
  evidence_chars = 0;
  finalization_calls = 0;
  rejected_calls = 0;
  setup_calls = 0;
  batch_active = false;
  batch_redirect_violation_counted = false;
}

-- The constructor; `none` is its `ValueError` for an initial stage that is out of range.
unfoldable pub new_controller : RetrievalPolicy → Bool → Bool → Option Controller
new_controller policy audited traced =
    if ltb policy.initial_stage 3
    then some (record {
      policy = policy;
      state = initial_state policy.initial_stage;
      evidence = [];
      audited = audited;
      audit = [];
      traced = traced;
      trajectory = [];
    })
    else none

unfoldable pub required_strategy : Controller → Strategy
unfolding strategy
required_strategy c = strategy c.state.stage

unfoldable pub executed_calls : Controller → ℕ
unfolding total
executed_calls c = total c.state.calls

unfoldable pub total_call_ceiling : RetrievalPolicy → ℕ
unfolding total
total_call_ceiling p = total p.max_calls + p.max_setup_calls + p.max_rejected_calls + 1

-- `_audit`
unfoldable pub write_audit : AuditEvent → Controller → Controller
unfolding required_strategy executed_calls
write_audit event c =
    if c.audited
    then record c {
      state = record c.state { sequence = c.state.sequence + 1 };
      audit =
          c.audit
          ++ record {
            sequence = c.state.sequence + 1;
            event = event;
            required_strategy = required_strategy c;
            executed_calls = executed_calls c;
          }
            ∷ [];
    }
    else c

-- `if self.trajectory_writer: ...`
unfoldable pub trace : TrajectoryCall → Controller → Controller
trace call c = if c.traced then record c { trajectory = c.trajectory ++ call ∷ [] } else c
