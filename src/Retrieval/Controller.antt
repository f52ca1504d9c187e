-- ===== src/Retrieval/Controller.antt =====
-- orchestrator/retrieval_progress.py: the methods of `RetrievalProgressController`. A method takes
-- the controller and returns the new one beside its result; the lock of the source makes each method
-- one step. The proofs are in the modules below.
use agi_inspired.Prelude.{
  ℕ, zero, suc, ◌+◌, Bool, true, false, not, Option, none, some, leb, ◌==◌, if◌then◌else◌,
}
use agi_inspired.Prelude.Text.{Text, contains, lower}
use agi_inspired.Retrieval.Policy.{
  Rungs, at, put, RetrievalPolicy, tool_stage, opaque_retrieval_proxies, non_retrieval_setup_tools,
}
use agi_inspired.Retrieval.State.{
  RetrievalState, strategy, Refusal, research_complete, setup_exhausted, delegation,
  retrieval_exhausted, wrong_stage, budget_spent, Reason, call_budget_reached, TerminalReason,
  not_terminal, consecutive_feedback_violations, global_rejection_ceiling, Redirect, setup,
  transition, redirect, strategy_transition, tool_redirect, Controller, required_strategy,
  write_audit, trace,
}

unfoldable pub begin_tool_batch : Controller → Controller
begin_tool_batch c = record c {
  state = record c.state { batch_active = true; batch_redirect_violation_counted = false };
}

unfoldable pub end_tool_batch : Controller → Controller
end_tool_batch c = record c {
  state = record c.state { batch_active = false; batch_redirect_violation_counted = false };
}

-- `_count_batch_violation`
unfoldable pub count_batch_violation : RetrievalState → RetrievalState × Bool
count_batch_violation s =
    if s.batch_active
    then if s.batch_redirect_violation_counted
      then (s, false)
      else (record s { batch_redirect_violation_counted = true }, true)
    else (s, true)

-- The first lines of `_redirect`: an explicit `false` is kept, all else asks the batch.
unfoldable pub resolve_violation : Option Bool → RetrievalState → RetrievalState × Bool
unfolding count_batch_violation
resolve_violation none s = count_batch_violation s
resolve_violation (some true) s = count_batch_violation s
resolve_violation (some false) s = (s, false)

-- The counters that a redirect raises.
unfoldable pub count_redirect : Bool → RetrievalState → RetrievalState
count_redirect counted s = record s {
  rejected_calls = s.rejected_calls + 1;
  redirect_violations = (if counted then s.redirect_violations + 1 else s.redirect_violations);
}

unfoldable pub terminal_reason : RetrievalPolicy → Bool → RetrievalState → TerminalReason
terminal_reason p counted s =
    if counted
    then if leb p.max_redirect_violations s.redirect_violations
      then consecutive_feedback_violations
      else if leb p.max_rejected_calls s.rejected_calls
      then global_rejection_ceiling
      else not_terminal
    else not_terminal

unfoldable pub is_terminal : TerminalReason → Bool
is_terminal not_terminal = false
is_terminal consecutive_feedback_violations = true
is_terminal global_rejection_ceiling = true

-- `_redirect`, once it is known whether the violation counts.
unfoldable pub redirect_counted :
    Text → Refusal → Controller → RetrievalState → Bool → Controller × Redirect
unfolding count_redirect terminal_reason is_terminal write_audit trace required_strategy
redirect_counted tool_name refusal c s counted =
    let s' = count_redirect counted s in
    let reason = terminal_reason c.policy counted s' in
    let terminal = is_terminal reason in
    let audited =
      write_audit
        (redirect tool_name counted s'.redirect_violations s'.rejected_calls terminal reason)
        (record c { state = s' }) in
    (
      trace (tool_redirect tool_name (required_strategy audited) counted) audited,
      record { refusal = refusal; count = s'.rejected_calls; terminal = terminal },
    )

-- `_redirect`
unfoldable pub refuse : Text → Refusal → Option Bool → Controller → Controller × Redirect
unfolding resolve_violation redirect_counted
refuse tool_name refusal count_violation c =
    let (s, counted) = resolve_violation count_violation c.state in
    redirect_counted tool_name refusal c s counted

-- The `while` of `_advance`: stages without a budget are passed over. Three rounds are enough, since
-- the stages end at 3.
unfoldable pub skip_empty : Rungs → ℕ → ℕ → ℕ
unfolding at
skip_empty max_calls zero stage = stage
skip_empty max_calls (suc rounds) stage =
    let rest = skip_empty max_calls rounds (stage + 1) in
    if leb 3 stage then stage else if at max_calls stage == 0 then rest else stage

-- `_advance`
unfoldable pub advance : ℕ → Reason → Controller → Controller
unfolding strategy write_audit trace required_strategy
advance stage reason c =
    if c.state.stage == stage
    then (let moved = record c {
      state = record c.state {
        stage = skip_empty c.policy.max_calls 3 (stage + 1);
        low_novelty_streak = 0;
      };
    } in
        let audited =
          write_audit (transition (strategy stage) (required_strategy moved) reason) moved in
        trace (strategy_transition (strategy stage) (required_strategy audited) reason) audited)
    else c

-- The branch of `before` for tools that only set the worker up.
unfoldable pub before_setup : Text → Controller → Controller × Option Redirect
before_setup tool_name c =
    if leb 3 c.state.stage
    then (let (c', r) = refuse tool_name research_complete none c in (c', some r))
    else if leb c.policy.max_setup_calls c.state.setup_calls
    then (let (c', r) = refuse tool_name setup_exhausted none c in (c', some r))
    else (
      write_audit (setup tool_name)
          (record c { state = record c.state { setup_calls = c.state.setup_calls + 1 } }),
      none,
    )

-- The rest of `before`, for a call that is charged to the rung `attempted`.
unfoldable pub before_retrieval : Text → ℕ → Controller → Controller × Option Redirect
unfolding at put
before_retrieval tool_name attempted c =
    if leb 3 c.state.stage
    then (let (c', r) = refuse tool_name retrieval_exhausted none c in (c', some r))
    else if not (attempted == c.state.stage)
    then (let (c', r) =
          refuse tool_name wrong_stage (some (at c.state.reserved attempted == 0)) c in
        (c', some r))
    else if leb (at c.policy.max_calls attempted)
        (at c.state.calls attempted + at c.state.reserved attempted)
    then (let (c', r) =
          refuse tool_name budget_spent none (advance attempted call_budget_reached c) in
        (c', some r))
    else (
      record c {
        state = record c.state {
          reserved = put c.state.reserved attempted (at c.state.reserved attempted + 1);
        };
      },
      none,
    )

-- `before`: `none` lets the call through.
unfoldable pub before : Text → Controller → Controller × Option Redirect
before tool_name c =
    if contains non_retrieval_setup_tools (lower tool_name)
    then before_setup tool_name c
    else if contains opaque_retrieval_proxies (lower tool_name)
    then (let (c', r) = refuse tool_name delegation none c in (c', some r))
    else before_retrieval tool_name (tool_stage tool_name) c
