-- ===== src/Retrieval/Progress.antt =====
-- What a result does to the stage in orchestrator/retrieval_progress.py.
use agi_inspired.Prelude.{
  ℕ, zero, suc, ◌+◌, ◌≤◌, ◌<◌, ◌≡◌, ◌≢◌, ◌⊎◌, Bool, false, Option, none, [], if◌then◌else◌, or_else,
  arith,
}
use agi_inspired.Prelude.Text.{Text}
use agi_inspired.Retrieval.Policy.{at, put, tool_stage}
use agi_inspired.Retrieval.State.{call_budget_reached, low_novelty, Controller, write_audit, trace}
use agi_inspired.Retrieval.After.{
  settle_call, remember, keep_evidence, count_novelty, account, transition_reason, finish_call,
  after, is_novel,
}
use agi_inspired.Retrieval.Stages.{IsUsable, MovesOn, tool_stage-lt, advance_current}

module _ (sha256 : Text → Text) (canonical_url : Text → Text) where
  pub account-stage :
      (t : Text) (stage : ℕ) (text : Text) (failed : Bool) (c : Controller)
      → ((account sha256 canonical_url t stage text failed c).state.stage ≡ c.state.stage)
        × ((account sha256 canonical_url t stage text failed c).policy ≡ c.policy)
  unfolding account keep_evidence remember count_novelty settle_call write_audit trace
  account-stage t stage text failed c = ground arith

  -- The result of a call from an earlier stage never moves the stage.
  pub after_stale :
      (t : Text) (result : Option Text) (failed : Bool) (c : Controller)
      → tool_stage t ≢ c.state.stage
      → ((after sha256 canonical_url t result failed c).0.state.stage ≡ c.state.stage)
        × ((after sha256 canonical_url t result failed c).1 ≡ none)
  unfolding after finish_call
  after_stale t result failed c stale =
      ground (arith, account-stage t (tool_stage t) (or_else result []) failed c)

  -- The counters of the call's own rung after the accounting.
  account-counts :
      (t : Text) (stage : ℕ) (text : Text) (failed : Bool) (c : Controller)
      → let s = (account sha256 canonical_url t stage text failed c).state in
        (at s.calls stage ≡ at c.state.calls stage + 1)
        × (s.low_novelty_streak ≡ (
            if is_novel sha256 canonical_url c.policy c.state stage text failed
            then 0
            else c.state.low_novelty_streak + 1))
  unfolding account keep_evidence remember count_novelty settle_call write_audit trace at put
  account-counts t zero text failed c = ground arith
  account-counts t (suc zero) text failed c = ground arith
  account-counts t (suc (suc n)) text failed c = ground arith

  -- The current rung is over with this result: its budget is spent, or novelty has been low for long.
  abbrev pub IsOver : Controller → Text → Bool → Type 0
  IsOver c text failed =
      (at c.policy.max_calls c.state.stage ≤ at c.state.calls c.state.stage + 1)
      ⊎ (c.policy.low_novelty_limit ≤ (
          if is_novel sha256 canonical_url c.policy c.state c.state.stage text failed
          then 0
          else c.state.low_novelty_streak + 1))

  finish_call-decides :
      (stage : ℕ) (c : Controller)
      → stage < 3
      → c.state.stage ≡ stage
      → (at c.policy.max_calls stage ≤ at c.state.calls stage)
        ⊎ (c.policy.low_novelty_limit ≤ c.state.low_novelty_streak)
      → (stage < (finish_call stage false c).0.state.stage)
        × IsUsable c.policy.max_calls (finish_call stage false c).0.state.stage
  unfolding finish_call transition_reason
  finish_call-decides stage c lt e over =
      ground (arith, advance_current call_budget_reached c, advance_current low_novelty c)

  finish_call-stays :
      (stage : ℕ) (c : Controller)
      → ¬ (
          (at c.policy.max_calls stage ≤ at c.state.calls stage)
          ⊎ (c.policy.low_novelty_limit ≤ c.state.low_novelty_streak))
      → finish_call stage false c ≡ (c, none)
  unfolding finish_call transition_reason
  finish_call-stays stage c not_over = ground arith

  module _ (t : Text) (result : Option Text) (failed : Bool) (c : Controller) where
    -- A result of the current stage that ends the rung moves on to a usable stage.
    after_over :
        tool_stage t ≡ c.state.stage
        → IsOver c (or_else result []) failed
        → (c.state.stage < (after sha256 canonical_url t result failed c).0.state.stage)
          × IsUsable c.policy.max_calls (after sha256 canonical_url t result failed c).0.state.stage
    unfolding after
    after_over current over = ground (
      arith,
      tool_stage-lt t,
      account-stage t (tool_stage t) (or_else result []) failed c,
      account-counts t (tool_stage t) (or_else result []) failed c,
      finish_call-decides (tool_stage t)
          (account sha256 canonical_url t (tool_stage t) (or_else result []) failed c),
    )

    -- A result of the current stage that does not end the rung leaves the stage as it is.
    after_not_over :
        tool_stage t ≡ c.state.stage
        → ¬ IsOver c (or_else result []) failed
        → ((after sha256 canonical_url t result failed c).0.state.stage ≡ c.state.stage)
          × ((after sha256 canonical_url t result failed c).1 ≡ none)
    unfolding after
    after_not_over current not_over = ground (
      arith,
      account-stage t (tool_stage t) (or_else result []) failed c,
      account-counts t (tool_stage t) (or_else result []) failed c,
      finish_call-stays (tool_stage t)
          (account sha256 canonical_url t (tool_stage t) (or_else result []) failed c),
    )

  -- A result moves the stage forward, to a usable stage, or not at all.
  pub after-stage :
      (t : Text) (result : Option Text) (failed : Bool) (c : Controller)
      → MovesOn c.policy.max_calls c.state.stage
          (after sha256 canonical_url t result failed c).0.state.stage
        × ((after sha256 canonical_url t result failed c).0.policy ≡ c.policy)
  unfolding after finish_call
  after-stage t result failed c = ground (
    arith,
    account-stage t (tool_stage t) (or_else result []) failed c,
    tool_stage-lt t,
    advance_current call_budget_reached
        (account sha256 canonical_url t (tool_stage t) (or_else result []) failed c),
    advance_current low_novelty
        (account sha256 canonical_url t (tool_stage t) (or_else result []) failed c),
  )
