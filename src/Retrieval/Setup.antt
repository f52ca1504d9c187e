-- ===== src/Retrieval/Setup.antt =====
-- The setup tools of orchestrator/retrieval_progress.py: `before` meters them on their own, and `after`
-- does not know of them.
use agi_inspired.Prelude.{not, ◌==◌, ℕ, ◌+◌, ◌≡◌, Bool, true, Option, none, [], or_else, arith}
use agi_inspired.Prelude.Text.{Text, codes, lower, contains, text_eq_sound, has_part, starts_with}
use agi_inspired.Retrieval.Policy.{
  at, put, tool_stage, is_fetch_tool, is_browser_tool, is_code_tool, non_retrieval_setup_tools,
}
use agi_inspired.Retrieval.State.{
  Reason, Controller, call_budget_reached, low_novelty, write_audit, trace,
}
use agi_inspired.Retrieval.Controller.{advance, before_setup, before}
use agi_inspired.Retrieval.After.{
  account, settle_call, remember, keep_evidence, count_novelty, finish_call, after,
}

abbrev IsSetup : Text → Type 0
IsSetup t = contains non_retrieval_setup_tools (lower t) ≡ true

IsSetup-name : (t : Text) → IsSetup t → lower t ≡ codes "skill_view"
unfolding contains
IsSetup-name t h = ground (arith, text_eq_sound (codes "skill_view") (lower t))

IsSetup-stage : (t : Text) → IsSetup t → tool_stage t ≡ 2
unfolding tool_stage is_fetch_tool is_browser_tool is_code_tool has_part starts_with
IsSetup-stage t h = rw (IsSetup-name t h)

advance-calls :
    (stage : ℕ) (r : Reason) (c : Controller) → (advance stage r c).state.calls ≡ c.state.calls
unfolding advance
advance-calls stage r c = ground arith

-- A setup call takes nothing from the retrieval budgets when it is let through.
before_setup-calls :
    (t : Text) (c : Controller)
    → IsSetup t
    → (before t c).1 ≡ none
    → ((before t c).0.state.calls ≡ c.state.calls)
      × ((before t c).0.state.reserved ≡ c.state.reserved)
      × ((before t c).0.state.setup_calls ≡ c.state.setup_calls + 1)
unfolding before before_setup write_audit
before_setup-calls t c s h = ground arith

module _ (sha256 : Text → Text) (canonical_url : Text → Text) where
  account-browser :
      (t : Text) (text : Text) (failed : Bool) (c : Controller)
      → (account sha256 canonical_url t 2 text failed c).state.calls.browser
        ≡ c.state.calls.browser + 1
  unfolding account settle_call remember keep_evidence count_novelty write_audit trace at put
  account-browser t text failed c = ground arith

  finish_call-calls :
      (stage : ℕ) (stale : Bool) (c : Controller)
      → (finish_call stage stale c).0.state.calls ≡ c.state.calls
  unfolding finish_call
  finish_call-calls stage stale c =
      ground (arith, advance-calls stage call_budget_reached c, advance-calls stage low_novelty c)

  -- Each setup call that is let through, once its result is reported, has been counted as one setup
  -- call and also as one call of the browser rung, for which it had no reservation.
  pub setup_charges_browser :
      (t : Text) (result : Option Text) (failed : Bool) (c : Controller)
      → contains non_retrieval_setup_tools (lower t) ≡ true
      → (before t c).1 ≡ none
      → let d = (before t c).0 in
        let e = (after sha256 canonical_url t result failed d).0 in
        (d.state.setup_calls ≡ c.state.setup_calls + 1)
        × (d.state.reserved ≡ c.state.reserved)
        × (e.state.calls.browser ≡ c.state.calls.browser + 1)
  unfolding after
  setup_charges_browser t result failed c s h =
      let d = (before t c).0 in
      let k = before_setup-calls t c s h in
      (
        k.2,
        k.1,
        rw (IsSetup-stage t s) (
            ground (
              arith,
              k,
              finish_call-calls 2 (not (2 == d.state.stage))
                  (account sha256 canonical_url t 2 (or_else result []) failed d),
              account-browser t (or_else result []) failed d,
            )),
      )
