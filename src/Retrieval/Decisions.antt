-- ===== src/Retrieval/Decisions.antt =====
-- What `before` of orchestrator/retrieval_progress.py lets through, and what a refusal costs.
use agi_inspired.Prelude.{
  ℕ, ◌+◌, ◌≤◌, ◌<◌, ◌≡◌, ◌≢◌, ◌↔◌, ◌⊎◌, inl, inr, Bool, true, false, Option, none, some, ◌==◌,
  arith,
}
use agi_inspired.Prelude.Text.{Text, lower, contains}
use agi_inspired.Retrieval.Policy.{
  at, put, tool_stage, non_retrieval_setup_tools, opaque_retrieval_proxies,
}
use agi_inspired.Retrieval.State.{
  Refusal, Reason, call_budget_reached, Controller, research_complete, setup_exhausted, delegation,
  retrieval_exhausted, wrong_stage, budget_spent,
}
use agi_inspired.Retrieval.Controller.{refuse, advance, before_setup, before_retrieval, before}
use agi_inspired.Retrieval.Stages.{tool_stage-lt}

-- A tool that is neither a setup tool nor a delegation, so that its calls are metered.
abbrev pub IsMetered : Text → Type 0
IsMetered t =
    (contains non_retrieval_setup_tools (lower t) ≡ false)
    × (contains opaque_retrieval_proxies (lower t) ≡ false)

-- A metered call is let through exactly when it is one of the current stage and the stage's budget
-- covers it beside the calls that ran and those in flight. The only change is then its reservation.
before_lets_through :
    (t : Text) (c : Controller)
    → IsMetered t
    → (((before t c).1 ≡ none) ↔ (
        (tool_stage t ≡ c.state.stage)
        × (at c.state.calls c.state.stage + at c.state.reserved c.state.stage
            < at c.policy.max_calls c.state.stage)))
      × ((before t c).1 ≡ none
          → (before t c).0 ≡ record c {
            state = record c.state {
              reserved =
                  put c.state.reserved (tool_stage t) (at c.state.reserved (tool_stage t) + 1);
            };
          })
unfolding before before_retrieval
before_lets_through t c m = (
  (λ h. ground (arith, tool_stage-lt t), λ h. ground (arith, tool_stage-lt t)),
  λ h. ground (arith, tool_stage-lt t),
)

-- What a refusal keeps: the calls, the reservations, the setup calls and the evidence.
abbrev pub SameUse : Controller → Controller → Type 0
SameUse c d =
    (d.state.calls ≡ c.state.calls)
    × (d.state.reserved ≡ c.state.reserved)
    × (d.state.setup_calls ≡ c.state.setup_calls)
    × (d.evidence ≡ c.evidence)

pub refuse_lem :
    (t : Text) (r : Refusal) (v : Option Bool) (c : Controller)
    → SameUse c (refuse t r v c).0
      × ((refuse t r v c).0.state.rejected_calls ≡ c.state.rejected_calls + 1)
      × ((refuse t r v c).1.count ≡ c.state.rejected_calls + 1)
unfolding refuse
refuse_lem t r v c = ground arith

advance-SameUse :
    (stage : ℕ) (r : Reason) (c : Controller)
    → SameUse c (advance stage r c)
      × ((advance stage r c).state.rejected_calls ≡ c.state.rejected_calls)
unfolding advance
advance-SameUse stage r c = ground arith

-- A call that is refused, whatever the tool and the ground, takes nothing from any budget and is
-- counted once as rejected, with that count in the answer.
before_refuses :
    (t : Text) (c : Controller)
    → (before t c).1 ≢ none
    → SameUse c (before t c).0 × ((before t c).0.state.rejected_calls ≡ c.state.rejected_calls + 1)
unfolding before before_retrieval before_setup
before_refuses t c h = ground (
  arith,
  refuse_lem t research_complete none c,
  refuse_lem t setup_exhausted none c,
  refuse_lem t delegation none c,
  refuse_lem t retrieval_exhausted none c,
  refuse_lem t wrong_stage (some (at c.state.reserved (tool_stage t) == 0)) c,
  refuse_lem t budget_spent none (advance (tool_stage t) call_budget_reached c),
  advance-SameUse (tool_stage t) call_budget_reached c,
)

-- Outside a batch, or at the first violation in one, a refusal ends the turn exactly when it is the
-- last one that the policy allows, by either ceiling.
refuse-terminal :
    (t : Text) (r : Refusal) (c : Controller)
    → (c.state.batch_active ≡ false) ⊎ (c.state.batch_redirect_violation_counted ≡ false)
    → ((refuse t r none c).1.terminal ≡ true) ↔ (
        (c.policy.max_redirect_violations ≤ c.state.redirect_violations + 1)
        ⊎ (c.policy.max_rejected_calls ≤ c.state.rejected_calls + 1))
unfolding refuse
refuse-terminal t r c (inl h) = (λ e. ground arith, λ e. ground arith)
refuse-terminal t r c (inr h) = (λ e. ground arith, λ e. ground arith)

-- Two refusals in one batch: the second raises no violation and never ends the turn.
refuse_in_batch :
    (t u : Text) (r q : Refusal) (v : Option Bool) (c : Controller)
    → c.state.batch_active ≡ true
    → let first = (refuse t r none c).0 in
      ((refuse u q v first).1.terminal ≡ false)
      × ((refuse u q v first).0.state.redirect_violations ≡ first.state.redirect_violations)
unfolding refuse
refuse_in_batch t u r q none c h = ground arith
refuse_in_batch t u r q (some true) c h = ground arith
refuse_in_batch t u r q (some false) c h = ground arith
