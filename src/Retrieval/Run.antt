-- ===== src/Retrieval/Run.antt =====
-- Runs of the controller of orchestrator/retrieval_progress.py: the methods in any order, with any
-- calls and results. The adapter reports every result to `after`, also that of a setup call, for which
-- `before` has made no reservation.
use agi_inspired.Prelude.{ℕ, ◌+◌, ◌≤◌, ◌<◌, ◌≡◌, ◌⊎◌, Bool, Option, some, arith}
use agi_inspired.Prelude.Text.{Text}
use agi_inspired.Retrieval.Policy.{Rungs, total, RetrievalPolicy, tool_stage}
use agi_inspired.Retrieval.State.{Controller, executed_calls, new_controller}
use agi_inspired.Retrieval.Controller.{begin_tool_batch, end_tool_batch, before}
use agi_inspired.Retrieval.After.{after, start_finalization, finish_research, finish_finalization}
use agi_inspired.Retrieval.Budget.{
  count_extra, IsBounded, Within, before-Within, after-Within, final-Within,
}
use agi_inspired.Retrieval.Stages.{IsUsable, MovesOn, before-stage, final-stage}
use agi_inspired.Retrieval.Progress.{after-stage}

module _ (sha256 : Text → Text) (canonical_url : Text → Text) where
  pub data Step : Controller → Controller → Type 0 where
    begin_batch : (c : Controller) → Step c (begin_tool_batch c)
    end_batch : (c : Controller) → Step c (end_tool_batch c)
    call : (c : Controller) (t : Text) → Step c (before t c).0
    result :
        (c : Controller) (t : Text) (text : Option Text) (failed : Bool)
        → Step c (after sha256 canonical_url t text failed c).0
    finalize : (c c' : Controller) → start_finalization c ≡ some c' → Step c c'
    research_done : (c : Controller) (n : ℕ) → Step c (finish_research n c)
    finalized : (c : Controller) (success : Bool) → Step c (finish_finalization success c)

  pub data Reach (c : Controller) : Controller → Type 0 where
    here : Reach c c
    next : {d e : Controller} → Reach c d → Step d e → Reach c e

  -- The results of a run that came for a rung on which no call was in flight.
  unfoldable pub extra_after : {c d : Controller} → Step c d → Rungs → Rungs
  unfolding count_extra
  extra_after (result c t text failed) x = count_extra (tool_stage t) c.state x
  extra_after (begin_batch c) x = x
  extra_after (end_batch c) x = x
  extra_after (call c t) x = x
  extra_after (finalize c c' e) x = x
  extra_after (research_done c n) x = x
  extra_after (finalized c success) x = x

  unfoldable pub extra_results : {c d : Controller} → Reach c d → Rungs
  extra_results here = record { search = 0; direct_fetch = 0; browser = 0 }
  extra_results (next r s) = extra_after s (extra_results r)

  Step-Within :
      (p : RetrievalPolicy) {x : Rungs} {c d : Controller} (s : Step c d)
      → Within p x c
      → Within p (extra_after s x) d
  unfolding begin_tool_batch end_tool_batch extra_after
  Step-Within p (begin_batch c) h = ground arith
  Step-Within p (end_batch c) h = ground arith
  Step-Within p (call c t) h = before-Within p t c h
  Step-Within p (result c t text failed) h = after-Within p sha256 canonical_url t text failed c h
  Step-Within p (finalize c c' e) h = (final-Within p c h).0 c' e
  Step-Within p (research_done c n) h = (final-Within p c h).1 n
  Step-Within p (finalized c success) h = (final-Within p c h).2 success

  Reach-Within :
      (p : RetrievalPolicy) {c d : Controller} (r : Reach c d)
      → Within p (record { search = 0; direct_fetch = 0; browser = 0 }) c
      → Within p (extra_results r) d
  unfolding extra_results
  Reach-Within p here h = h
  Reach-Within p (next r s) h = Step-Within p s (Reach-Within p r h)

  new-Within :
      (p : RetrievalPolicy) (audited traced : Bool) {c : Controller}
      → new_controller p audited traced ≡ some c
      → Within p (record { search = 0; direct_fetch = 0; browser = 0 }) c
  unfolding new_controller
  new-Within p audited traced e = ground arith

  -- In every run from a new controller, whatever the calls and results, the calls that were counted and
  -- those in flight are on each rung at most its budget and the results that came while no call was
  -- in flight there, as a setup call's result does; so are all together. Where there is no such
  -- result, they are within the budgets. The setup calls and the evidence kept are within their allowances.
  pub run-IsBounded :
      (p : RetrievalPolicy) (audited traced : Bool) {c d : Controller}
      → new_controller p audited traced ≡ some c
      → (r : Reach c d)
      → (executed_calls d + total d.state.reserved ≤ total p.max_calls + total (extra_results r))
        × IsBounded p (extra_results r) d.state
  unfolding executed_calls total
  run-IsBounded p audited traced e r =
      let h = Reach-Within p r (new-Within p audited traced e) in (omega arith, h.bounded)

  Step-stage :
      {c d : Controller}
      → Step c d
      → MovesOn c.policy.max_calls c.state.stage d.state.stage × (d.policy ≡ c.policy)
  unfolding begin_tool_batch end_tool_batch
  Step-stage (begin_batch c) = ground arith
  Step-stage (end_batch c) = ground arith
  Step-stage (call c t) = before-stage t c
  Step-stage (result c t text failed) = after-stage sha256 canonical_url t text failed c
  Step-stage (finalize c c' e) = ground (arith, (final-stage c).0 c' e)
  Step-stage (research_done c n) = ground (arith, (final-stage c).1 n)
  Step-stage (finalized c success) = ground (arith, (final-stage c).2 success)

  -- The stage never goes back in a run, whatever the calls and results; where it has moved, it stands
  -- at a rung with a budget or at the end.
  pub run-stage :
      {c d : Controller}
      → Reach c d
      → (d.policy ≡ c.policy)
        × ((d.state.stage ≡ c.state.stage)
            ⊎ ((c.state.stage < d.state.stage) × IsUsable c.policy.max_calls d.state.stage))
  run-stage here = ground arith
  run-stage (next r s) = ground (arith, run-stage r, Step-stage s)
