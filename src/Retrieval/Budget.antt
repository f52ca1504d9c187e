-- ===== src/Retrieval/Budget.antt =====
-- The budgets of orchestrator/retrieval_progress.py hold in every state that the controller reaches.
use agi_inspired.Retrieval.Extract.{canonical_urls}
use agi_inspired.Prelude.{
  length-take, min, ◌-◌, List, [], or_else, ℕ, zero, suc, ◌==◌, none, ◌+◌, ◌≤◌, ◌<◌, ◌≡◌, Bool,
  Option, some, arith, if◌then◌else◌,
}
use agi_inspired.Prelude.Text.{Text}
use agi_inspired.Retrieval.Policy.{Rungs, at, put, RetrievalPolicy, tool_stage}
use agi_inspired.Retrieval.State.{
  RetrievalState, Refusal, research_complete, setup_exhausted, delegation, retrieval_exhausted,
  wrong_stage, budget_spent, low_novelty, call_budget_reached, Reason, AuditEvent, TrajectoryCall,
  Controller, write_audit, trace,
}
use agi_inspired.Retrieval.Stages.{tool_stage-lt}
use agi_inspired.Retrieval.Controller.{refuse, advance, before_setup, before_retrieval, before}
use agi_inspired.Retrieval.After.{
  settle_call, remember, keep_evidence, count_novelty, account, finish_call, after, excerpt,
  start_finalization, finish_research, finish_finalization,
}

-- The results so far that came for a rung on which no call was in flight.
unfoldable pub count_extra : ℕ → RetrievalState → Rungs → Rungs
unfolding at put
count_extra stage s x = if at s.reserved stage == 0 then put x stage (at x stage + 1) else x

-- On each rung the calls that ran and those in flight fit its budget and its extra results; setup and
-- evidence fit their allowances.
pub record IsBounded (p : RetrievalPolicy) (x : Rungs) (s : RetrievalState) : Type 0 where
  pub search : s.calls.search + s.reserved.search ≤ p.max_calls.search + x.search
  pub direct_fetch :
      s.calls.direct_fetch + s.reserved.direct_fetch ≤ p.max_calls.direct_fetch + x.direct_fetch
  pub browser : s.calls.browser + s.reserved.browser ≤ p.max_calls.browser + x.browser
  pub setup : s.setup_calls ≤ p.max_setup_calls
  pub evidence : s.evidence_chars ≤ p.max_evidence_chars_total

module _ (p : RetrievalPolicy) where
  -- The controller still has its policy, and is within it.
  pub record Within (x : Rungs) (c : Controller) : Type 0 where
    pub policy : c.policy ≡ p
    pub bounded : IsBounded p x c.state

module _ (p : RetrievalPolicy) {x : Rungs} where
  write_audit-Within :
      (e : AuditEvent) (c : Controller) → Within p x c → Within p x (write_audit e c)
  unfolding write_audit
  write_audit-Within e c h = ground arith

  trace-Within : (t : TrajectoryCall) (c : Controller) → Within p x c → Within p x (trace t c)
  unfolding trace
  trace-Within t c h = ground arith

  refuse-Within :
      (t : Text) (r : Refusal) (v : Option Bool) (c : Controller)
      → Within p x c
      → Within p x (refuse t r v c).0
  unfolding refuse
  refuse-Within t r v c h = ground arith

  advance-Within :
      (stage : ℕ) (r : Reason) (c : Controller) → Within p x c → Within p x (advance stage r c)
  unfolding advance
  advance-Within stage r c h = ground arith

  before_setup-Within : (t : Text) (c : Controller) → Within p x c → Within p x (before_setup t c).0
  unfolding before_setup write_audit
  before_setup-Within t c h =
      ground
        (arith, refuse-Within t research_complete none c, refuse-Within t setup_exhausted none c)

  before_retrieval-Within :
      (t : Text) (attempted : ℕ) (c : Controller)
      → attempted < 3
      → Within p x c
      → Within p x (before_retrieval t attempted c).0
  unfolding before_retrieval
  before_retrieval-Within t zero c _ h = ground (
    arith,
    refuse-Within t retrieval_exhausted none c,
    refuse-Within t wrong_stage (some (at c.state.reserved 0 == 0)) c,
    advance-Within 0 call_budget_reached c,
    refuse-Within t budget_spent none (advance 0 call_budget_reached c),
  )
  before_retrieval-Within t (suc zero) c _ h = ground (
    arith,
    refuse-Within t retrieval_exhausted none c,
    refuse-Within t wrong_stage (some (at c.state.reserved 1 == 0)) c,
    advance-Within 1 call_budget_reached c,
    refuse-Within t budget_spent none (advance 1 call_budget_reached c),
  )
  before_retrieval-Within t (suc (suc zero)) c _ h = ground (
    arith,
    refuse-Within t retrieval_exhausted none c,
    refuse-Within t wrong_stage (some (at c.state.reserved 2 == 0)) c,
    advance-Within 2 call_budget_reached c,
    refuse-Within t budget_spent none (advance 2 call_budget_reached c),
  )
  before_retrieval-Within t (suc (suc (suc n))) c lt h = absurd (omega arith)

  pub before-Within : (t : Text) (c : Controller) → Within p x c → Within p x (before t c).0
  unfolding before
  before-Within t c h = ground (
    arith,
    before_setup-Within t c,
    refuse-Within t delegation none c,
    before_retrieval-Within t (tool_stage t) c,
    tool_stage-lt t,
  )

  keep_evidence-Within :
      (t : Text) (stage : ℕ) (failed : Bool) (found : List Text) (text : Text) (c : Controller)
      → Within p x c
      → Within p x (keep_evidence t stage failed found text c)
  unfolding keep_evidence excerpt
  keep_evidence-Within t stage failed found text c h = ground (
    arith,
    length-take
        (min c.policy.max_evidence_chars_per_call
          (c.policy.max_evidence_chars_total - c.state.evidence_chars))
        text,
  )

  -- A reserved call moves from `reserved` to `calls`; a result without one is an extra call.
  settle_call-IsBounded :
      (stage : ℕ) (s : RetrievalState)
      → IsBounded p x s
      → IsBounded p (count_extra stage s x) (settle_call stage s)
  unfolding settle_call count_extra at put
  settle_call-IsBounded zero s h = ground arith
  settle_call-IsBounded (suc zero) s h = ground arith
  settle_call-IsBounded (suc (suc n)) s h = ground arith

  finish_call-Within :
      (stage : ℕ) (stale : Bool) (c : Controller)
      → Within p x c
      → Within p x (finish_call stage stale c).0
  unfolding finish_call
  finish_call-Within stage stale c h =
      ground (arith, advance-Within stage call_budget_reached c, advance-Within stage low_novelty c)

module _ (p : RetrievalPolicy) {x : Rungs} (sha256 : Text → Text)
    (canonical_url : Text → Text) where
  account-Within :
      (t : Text) (stage : ℕ) (text : Text) (failed : Bool) (c : Controller)
      → Within p x c
      → Within p (count_extra stage c.state x) (account sha256 canonical_url t stage text failed c)
  unfolding account remember count_novelty
  account-Within t stage text failed c h = trace-Within p _ _ (
      write_audit-Within p _ _ (record {
        policy = kept.policy;
        bounded = record {
          search = kept.bounded.search;
          direct_fetch = kept.bounded.direct_fetch;
          browser = kept.bounded.browser;
          setup = kept.bounded.setup;
          evidence = kept.bounded.evidence;
        };
      }))
    where
      settled : IsBounded p (count_extra stage c.state x) (settle_call stage c.state)
      settled = settle_call-IsBounded p stage c.state h.bounded

      open settled use {search, direct_fetch, browser, setup, evidence}

      kept : Within p (count_extra stage c.state x) (
          keep_evidence t stage failed
            (canonical_urls canonical_url text)
            text
            (record c { state = remember sha256 canonical_url text (settle_call stage c.state) }))
      kept =
          keep_evidence-Within p t stage failed (canonical_urls canonical_url text) text
            (record c { state = remember sha256 canonical_url text (settle_call stage c.state) })
            (record {
              policy = h.policy;
              bounded = record {
                search = search;
                direct_fetch = direct_fetch;
                browser = browser;
                setup = setup;
                evidence = evidence;
              };
            })

  pub after-Within :
      (t : Text) (result : Option Text) (failed : Bool) (c : Controller)
      → Within p x c
      → Within p
          (count_extra (tool_stage t) c.state x)
          (after sha256 canonical_url t result failed c).0
  unfolding after
  after-Within t result failed c h =
      finish_call-Within p _ _ _ (account-Within t (tool_stage t) (or_else result []) failed c h)

-- The methods around the finalizer keep it too.
pub final-Within :
    (p : RetrievalPolicy) {x : Rungs} (c : Controller)
    → Within p x c
    → ((c' : Controller) → start_finalization c ≡ some c' → Within p x c')
      × ((n : ℕ) → Within p x (finish_research n c))
      × ((success : Bool) → Within p x (finish_finalization success c))
unfolding start_finalization finish_research finish_finalization
final-Within p c h = (
  λ c' e. ground arith,
  λ n. write_audit-Within p _ c h,
  λ success. trace-Within p _ _ (write_audit-Within p _ c h),
)
