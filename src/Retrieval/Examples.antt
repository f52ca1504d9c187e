-- ===== src/Retrieval/Examples.antt =====
-- Runs and checks of the retrieval controller at concrete inputs. The digest and the canonical form
-- of a URL are the identity here.
use agi_inspired.Prelude.{◌≢◌, ◌+◌, ◌≤◌, ◌≡◌, inr, true, false, none, some, [], refl, arith}
use agi_inspired.Prelude.Text.{Text, codes, contains, lower, strip, has_part, starts_with}
use agi_inspired.Retrieval.Policy.{
  at, put, total, default_policy, dynamic_browser_policy, retrieval_policy_for_profile, tool_stage,
  is_fetch_tool, is_browser_tool,
}
use agi_inspired.Retrieval.State.{
  Controller, initial_state, executed_calls, new_controller, write_audit,
}
use agi_inspired.Retrieval.Controller.{refuse, skip_empty, before_setup, before_retrieval, before}
use agi_inspired.Retrieval.After.{after, is_novel}
use agi_inspired.Retrieval.Budget.{count_extra, IsBounded}
use agi_inspired.Retrieval.Stages.{MovesOn}
use agi_inspired.Retrieval.Progress.{IsOver}
use agi_inspired.Retrieval.Run.{
  Reach, here, next, call, result, extra_results, extra_after, run-IsBounded, run-stage,
}
use agi_inspired.Retrieval.Setup.{setup_charges_browser}

abbrev fresh : Controller
fresh = record {
  policy = default_policy;
  state = initial_state 0;
  evidence = [];
  audited = true;
  audit = [];
  traced = false;
  trajectory = [];
}

abbrev web_search : Text
web_search = codes "web_search"

-- One search in flight.
in_flight : Controller
in_flight = (before web_search fresh).0

id : Text → Text
id t = t

one_search : Reach id id fresh (after id id web_search (some (codes "no hits")) false in_flight).0
unfolding in_flight
one_search =
    next (next here (call fresh web_search)) (result _ web_search (some (codes "no hits")) false)

run-IsBounded_example :
    (executed_calls (after id id web_search (some (codes "no hits")) false in_flight).0
        + total (after id id web_search (some (codes "no hits")) false in_flight).0.state.reserved
      ≤ 8 + total (extra_results id id one_search))
    × IsBounded default_policy
        (extra_results id id one_search)
        (after id id web_search (some (codes "no hits")) false in_flight).0.state
unfolding new_controller total
run-IsBounded_example = run-IsBounded id id default_policy true false {c = fresh} refl one_search

-- The search was in flight, so it is no extra result.
one_search_extra : total (extra_results id id one_search) ≡ 0
unfolding one_search extra_results extra_after count_extra total before before_retrieval tool_stage
    contains lower has_part put at
one_search_extra = refl

run-stage_example :
    ((after id id web_search (some (codes "no hits")) false in_flight).0.policy ≡ default_policy)
    × MovesOn default_policy.max_calls 0
        (after id id web_search (some (codes "no hits")) false in_flight).0.state.stage
run-stage_example = run-stage id id one_search

-- The second result in a row that is not novel ends the rung.
abbrev dull : Controller
dull = record fresh { state = record (initial_state 0) { low_novelty_streak = 1 } }

dull-IsOver : IsOver id id dull (codes "no hits") false
unfolding is_novel strip at
dull-IsOver = inr (omega arith)

browser_refused : (before (codes "browser_open") fresh).1 ≢ none
unfolding before before_retrieval tool_stage is_fetch_tool is_browser_tool contains lower has_part
    starts_with refuse
browser_refused = λ h. cc

abbrev skill_view : Text
skill_view = codes "skill_view"

setup_charges_browser_example :
    let d = (before skill_view fresh).0 in
    let e = (after id id skill_view none false d).0 in
    (d.state.setup_calls ≡ 1)
    × (d.state.reserved ≡ fresh.state.reserved)
    × (e.state.calls.browser ≡ 1)
unfolding before before_setup contains lower write_audit
setup_charges_browser_example = setup_charges_browser id id skill_view none false fresh refl refl

skip_empty_test : skip_empty dynamic_browser_policy.max_calls 3 0 ≡ 2
unfolding skip_empty at
skip_empty_test = refl

profile_test :
    retrieval_policy_for_profile (some (codes " Dynamic_Browser_Required "))
    ≡ some dynamic_browser_policy
unfolding retrieval_policy_for_profile
profile_test = refl
