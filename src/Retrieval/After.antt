-- ===== src/Retrieval/After.antt =====
-- orchestrator/retrieval_progress.py: `after` and the finalizer's methods of
-- `RetrievalProgressController`.
use agi_inspired.Prelude.{
  ℕ, ◌+◌, ◌-◌, min, Bool, not, ◌&&◌, ◌||◌, Option, none, some, List, [], ◌∷◌, ◌++◌, leb, ◌==◌,
  length, take, any, or_else, if◌then◌else◌,
}
use agi_inspired.Prelude.Text.{Text, codes, contains, lower, strip, has_part, sort_texts}
use agi_inspired.Retrieval.Policy.{at, put, RetrievalPolicy, tool_stage}
use agi_inspired.Retrieval.Extract.{
  words, set_of, set_add, set_update, set_minus, fingerprint, canonical_urls,
}
use agi_inspired.Retrieval.State.{
  RetrievalState, strategy, Reason, call_budget_reached, low_novelty, ResultClass, timeout,
  challenge_or_access_block, tool_error, ok, Transition, observation, finalization_started,
  research_finished, finalization_finished, tool_call_finished, finalization_started_call,
  finalization_finished_call, Controller, required_strategy, write_audit, trace,
}
use agi_inspired.Retrieval.Controller.{advance}

-- A reservation is given back, and the call is counted.
unfoldable pub settle_call : ℕ → RetrievalState → RetrievalState
unfolding at put
settle_call stage s = record s {
  reserved =
      (if at s.reserved stage == 0
        then s.reserved
        else put s.reserved stage (at s.reserved stage - 1));
  redirect_violations = 0;
  calls = put s.calls stage (at s.calls stage + 1);
}

unfoldable pub is_substantive : RetrievalPolicy → ℕ → Text → Bool → Bool
unfolding strip
is_substantive p stage text failed =
    not failed
    && leb (if stage == 0 then p.min_search_chars else p.min_content_chars) (length (strip text))

unfoldable pub classify_result : Text → Bool → ResultClass
unfolding lower has_part any
classify_result text failed =
    let lowered = lower text in
    if has_part lowered (codes "timed out") || has_part lowered (codes "timeout")
    then timeout
    else if any (has_part lowered) (
        codes "cloudflare"
        ∷ codes "captcha"
        ∷ codes "access denied"
        ∷ codes "forbidden"
        ∷ codes "http 403"
        ∷ codes "challenge page"
        ∷ [])
    then challenge_or_access_block
    else if failed
    then tool_error
    else ok

-- Whether the stage is over after this result, and why.
unfoldable pub transition_reason : RetrievalPolicy → ℕ → RetrievalState → Option Reason
unfolding at
transition_reason p stage s =
    if leb (at p.max_calls stage) (at s.calls stage)
    then some call_budget_reached
    else if leb p.low_novelty_limit s.low_novelty_streak
    then some low_novelty
    else none

-- The part of a result that still fits the evidence allowances.
unfoldable pub excerpt : RetrievalPolicy → ℕ → Text → Text
excerpt p evidence_chars text =
    take (min p.max_evidence_chars_per_call (p.max_evidence_chars_total - evidence_chars)) text

unfoldable pub keep_evidence : Text → ℕ → Bool → List Text → Text → Controller → Controller
unfolding strategy at
keep_evidence tool_name stage failed found text c =
    let content = excerpt c.policy c.state.evidence_chars text in
    if length content == 0 then c else record c {
      state = record c.state { evidence_chars = c.state.evidence_chars + length content };
      evidence =
          c.evidence
          ++ record {
            sequence = at c.state.calls stage;
            stage = strategy stage;
            tool = tool_name;
            failed = failed;
            urls = sort_texts found;
            content = content;
          }
            ∷ [];
    }

-- The end of `_after_locked`: a stale result moves nothing.
unfoldable pub finish_call : ℕ → Bool → Controller → Controller × Option Transition
finish_call stage stale c = elim (transition_reason c.policy stage c.state) [
  | none ↦ (c, none)
  | some reason ↦
      if stale
      then (c, none)
      else (let moved = advance stage reason c in
          (
            moved,
            some (record {
              source = strategy stage;
              target = required_strategy moved;
              reason = reason;
              count = at moved.state.calls stage;
            }),
          ))
]

module _ (sha256 : Text → Text) (canonical_url : Text → Text) where
  -- A result is novel if it is substantive and adds a URL, or unseen content with twelve new words.
  unfoldable pub is_novel : RetrievalPolicy → RetrievalState → ℕ → Text → Bool → Bool
  unfolding is_substantive set_minus set_of words fingerprint canonical_urls contains
  is_novel p s stage text failed =
      is_substantive p stage text failed
      && (leb 1 (length (set_minus (canonical_urls canonical_url text) s.urls))
          || (not (contains s.fingerprints (fingerprint sha256 text))
              && leb 12 (length (set_minus (set_of (words text)) s.vocabulary))))

  -- What the controller remembers of a result.
  unfoldable pub remember : Text → RetrievalState → RetrievalState
  unfolding set_update set_add set_of words fingerprint canonical_urls
  remember text s = record s {
    urls = set_update s.urls (canonical_urls canonical_url text);
    vocabulary = set_update s.vocabulary (set_of (words text));
    fingerprints = set_add (fingerprint sha256 text) s.fingerprints;
  }

  unfoldable pub count_novelty : Bool → Controller → Controller
  count_novelty novel c = record c {
    state = record c.state {
      low_novelty_streak = (if novel then 0 else c.state.low_novelty_streak + 1);
    };
  }

  -- The accounting of a result: everything of `_after_locked` before the stage is looked at.
  unfoldable pub account : Text → ℕ → Text → Bool → Controller → Controller
  account tool_name stage text failed c =
      let novel = is_novel c.policy c.state stage text failed in
      let found = canonical_urls canonical_url text in
      let new_urls = length (set_minus found c.state.urls) in
      let new_words = length (set_minus (set_of (words text)) c.state.vocabulary) in
      let settled = record c { state = remember text (settle_call stage c.state) } in
      let counted = count_novelty novel (keep_evidence tool_name stage failed found text settled) in
      let audited =
        write_audit
          (observation (record {
            tool = tool_name;
            stage = strategy stage;
            novel = novel;
            new_urls = new_urls;
            new_words = new_words;
            failed = failed;
            stale = not (stage == c.state.stage);
            result_chars = length text;
            result_class = classify_result text failed;
          }))
          counted in
      trace
        (tool_call_finished tool_name (strategy stage) (at audited.state.calls stage) novel
          new_urls)
        audited

  -- `after`. `tool_stage` is below 3, so the early return is not taken.
  unfoldable pub after : Text → Option Text → Bool → Controller → Controller × Option Transition
  after tool_name result failed c =
      let stage = tool_stage tool_name in
      finish_call stage (not (stage == c.state.stage))
        (account tool_name stage (or_else result []) failed c)

-- `none` is the `RuntimeError` of a second attempt.
unfoldable pub start_finalization : Controller → Option Controller
unfolding write_audit trace
start_finalization c =
    if c.state.finalization_calls == 0
    then (let c' = record c { state = record c.state { finalization_calls = 1 } } in
        let items = length c'.evidence in
        let chars = c'.state.evidence_chars in
        some (
          trace (finalization_started_call items chars)
            (write_audit (finalization_started items chars) c')))
    else none

unfoldable pub finish_research : ℕ → Controller → Controller
unfolding write_audit
finish_research api_calls c = write_audit (research_finished api_calls c.state.rejected_calls) c

unfoldable pub finish_finalization : Bool → Controller → Controller
unfolding write_audit trace
finish_finalization success c =
    trace (finalization_finished_call success) (write_audit (finalization_finished success) c)
