-- ===== src/Retrieval/Stages.antt =====
-- How the methods of orchestrator/retrieval_progress.py move the stage.
use agi_inspired.Prelude.{
  ℕ, zero, suc, ◌+◌, ◌≤◌, ◌<◌, ◌≡◌, ◌≢◌, ◌⊎◌, Bool, Option, none, some, ◌==◌, arith,
}
use agi_inspired.Prelude.Text.{Text}
use agi_inspired.Retrieval.Policy.{Rungs, at, tool_stage}
use agi_inspired.Retrieval.State.{
  Refusal, Reason, call_budget_reached, AuditEvent, TrajectoryCall, Controller, write_audit, trace,
  research_complete, setup_exhausted, delegation, retrieval_exhausted, wrong_stage, budget_spent,
}
use agi_inspired.Retrieval.Controller.{
  refuse, skip_empty, advance, before_setup, before_retrieval, before,
}
use agi_inspired.Retrieval.After.{start_finalization, finish_research, finish_finalization}

-- Every call is charged to one of the three rungs.
pub tool_stage-lt : (t : Text) → tool_stage t < 3
unfolding tool_stage
tool_stage-lt t = ground arith

-- A stage where work may go on: one with a budget, or the end.
abbrev pub IsUsable : Rungs → ℕ → Type 0
IsUsable max_calls stage = (stage ≡ 3) ⊎ ((stage < 3) × (0 < at max_calls stage))

-- Three rounds of the loop are enough: from any stage up to 3 it ends on a usable one.
pub skip_empty-IsUsable :
    (m : Rungs) (stage : ℕ)
    → stage ≤ 3
    → IsUsable m (skip_empty m 3 stage) × (stage ≤ skip_empty m 3 stage)
unfolding skip_empty at
skip_empty-IsUsable m zero h = ground arith
skip_empty-IsUsable m (suc zero) h = ground arith
skip_empty-IsUsable m (suc (suc zero)) h = ground arith
skip_empty-IsUsable m (suc (suc (suc zero))) h = ground arith
skip_empty-IsUsable m (suc (suc (suc (suc n)))) h = absurd (omega arith)

pub stage-write_audit :
    (e : AuditEvent) (c : Controller) → (write_audit e c).state.stage ≡ c.state.stage
unfolding write_audit
stage-write_audit e c = ground arith

pub stage-trace : (t : TrajectoryCall) (c : Controller) → (trace t c).state.stage ≡ c.state.stage
unfolding trace
stage-trace t c = ground arith

pub stage-refuse :
    (t : Text) (r : Refusal) (v : Option Bool) (c : Controller)
    → ((refuse t r v c).0.state.stage ≡ c.state.stage) × ((refuse t r v c).0.policy ≡ c.policy)
unfolding refuse
stage-refuse t r v c = ground arith

-- `_advance` from the current stage goes to a later, usable one; from any other it does nothing.
pub advance_current :
    (r : Reason) (c : Controller)
    → c.state.stage < 3
    → IsUsable c.policy.max_calls (advance c.state.stage r c).state.stage
      × (c.state.stage < (advance c.state.stage r c).state.stage)
      × ((advance c.state.stage r c).policy ≡ c.policy)
unfolding advance write_audit trace
advance_current r c h =
    ground (arith, skip_empty-IsUsable c.policy.max_calls (c.state.stage + 1) (omega arith))

pub advance_other :
    (stage : ℕ) (r : Reason) (c : Controller) → c.state.stage ≢ stage → advance stage r c ≡ c
unfolding advance
advance_other stage r c h = ground arith

-- A controller that has only moved forward, to a usable stage if it moved at all.
abbrev pub MovesOn : Rungs → ℕ → ℕ → Type 0
MovesOn m old new = (new ≡ old) ⊎ ((old < new) × IsUsable m new)

before_setup-stage :
    (t : Text) (c : Controller)
    → ((before_setup t c).0.state.stage ≡ c.state.stage) × ((before_setup t c).0.policy ≡ c.policy)
unfolding before_setup write_audit
before_setup-stage t c =
    ground (arith, stage-refuse t research_complete none c, stage-refuse t setup_exhausted none c)

before_retrieval-stage :
    (t : Text) (attempted : ℕ) (c : Controller)
    → MovesOn c.policy.max_calls c.state.stage (before_retrieval t attempted c).0.state.stage
      × ((before_retrieval t attempted c).0.policy ≡ c.policy)
unfolding before_retrieval
before_retrieval-stage t attempted c = ground (
  arith,
  stage-refuse t retrieval_exhausted none c,
  stage-refuse t wrong_stage (some (at c.state.reserved attempted == 0)) c,
  stage-refuse t budget_spent none (advance attempted call_budget_reached c),
  advance_current call_budget_reached c,
)

-- A request for a call moves the stage forward, to a usable stage, or not at all.
pub before-stage :
    (t : Text) (c : Controller)
    → MovesOn c.policy.max_calls c.state.stage (before t c).0.state.stage
      × ((before t c).0.policy ≡ c.policy)
unfolding before
before-stage t c = ground (
  arith,
  before_setup-stage t c,
  stage-refuse t delegation none c,
  before_retrieval-stage t (tool_stage t) c,
)

-- The methods around the finalizer leave the stage and the policy.
pub final-stage :
    (c : Controller)
    → ((c' : Controller)
        → start_finalization c ≡ some c'
        → (c'.state.stage ≡ c.state.stage) × (c'.policy ≡ c.policy))
      × ((n : ℕ)
          → ((finish_research n c).state.stage ≡ c.state.stage)
            × ((finish_research n c).policy ≡ c.policy))
      × ((success : Bool)
          → ((finish_finalization success c).state.stage ≡ c.state.stage)
            × ((finish_finalization success c).policy ≡ c.policy))
unfolding start_finalization finish_research finish_finalization
final-stage c = (λ c' e. ground arith, λ n. ground arith, λ success. ground arith)
