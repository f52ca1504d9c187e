-- ===== src/Retrieval/Policy.antt =====
-- orchestrator/retrieval_progress.py: `RetrievalPolicy`, the retrieval profiles and `tool_stage`.
use agi_inspired.Prelude.{
  ℕ, zero, suc, ◌+◌, Bool, ◌||◌, Option, none, some, List, [], ◌∷◌, if◌then◌else◌,
}
use agi_inspired.Prelude.Text.{Text, codes, text_eq, contains, lower, strip, starts_with, has_part}

-- The lists and tuples with one number for each of the three rungs, 0 to 2.
pub record Rungs : Type 0 where
  pub search : ℕ
  pub direct_fetch : ℕ
  pub browser : ℕ

-- `counts[stage]`, which the source only reads at the stages 0, 1 and 2.
unfoldable pub at : Rungs → ℕ → ℕ
at r zero = r.search
at r (suc zero) = r.direct_fetch
at r (suc (suc n)) = r.browser

-- `counts[stage] = n`
unfoldable pub put : Rungs → ℕ → ℕ → Rungs
put r zero n = record r { search = n }
put r (suc zero) n = record r { direct_fetch = n }
put r (suc (suc k)) n = record r { browser = n }

-- `sum(counts)`
unfoldable pub total : Rungs → ℕ
total r = r.search + r.direct_fetch + r.browser

pub record RetrievalPolicy : Type 0 where
  pub profile : Text
  pub initial_stage : ℕ
  pub low_novelty_limit : ℕ
  pub max_calls : Rungs
  pub min_search_chars : ℕ
  pub min_content_chars : ℕ
  pub max_redirect_violations : ℕ
  pub max_rejected_calls : ℕ
  pub max_setup_calls : ℕ
  pub max_evidence_chars_per_call : ℕ
  pub max_evidence_chars_total : ℕ

abbrev pub default_retrieval_profile : Text
default_retrieval_profile = codes "default"

abbrev pub dynamic_browser_profile : Text
dynamic_browser_profile = codes "dynamic_browser_required"

abbrev pub default_policy : RetrievalPolicy
default_policy = record {
  profile = default_retrieval_profile;
  initial_stage = 0;
  low_novelty_limit = 2;
  max_calls = record { search = 3; direct_fetch = 3; browser = 2 };
  min_search_chars = 80;
  min_content_chars = 240;
  max_redirect_violations = 2;
  max_rejected_calls = 3;
  max_setup_calls = 2;
  max_evidence_chars_per_call = 5000;
  max_evidence_chars_total = 30000;
}

abbrev pub dynamic_browser_policy : RetrievalPolicy
dynamic_browser_policy = record default_policy {
  profile = dynamic_browser_profile;
  initial_stage = 2;
  max_calls = record { search = 0; direct_fetch = 0; browser = 8 };
  max_evidence_chars_per_call = 10_000;
}

-- `profile or DEFAULT_RETRIEVAL_PROFILE`: an empty text counts as absent too.
unfoldable pub profile_or_default : Option Text → Text
profile_or_default none = default_retrieval_profile
profile_or_default (some []) = default_retrieval_profile
profile_or_default (some (c ∷ t)) = c ∷ t

-- `none` is the `ValueError` for a profile that is not supported.
unfoldable pub retrieval_policy_for_profile : Option Text → Option RetrievalPolicy
unfolding profile_or_default strip lower text_eq
retrieval_policy_for_profile profile =
    let normalized = lower (strip (profile_or_default profile)) in
    if text_eq normalized default_retrieval_profile
    then some default_policy
    else if text_eq normalized dynamic_browser_profile
    then some dynamic_browser_policy
    else none

unfoldable pub is_fetch_tool : Text → Bool
unfolding contains has_part
is_fetch_tool name =
    contains (codes "web_extract" ∷ codes "web_fetch" ∷ codes "fetch_url" ∷ []) name
    || (has_part name (codes "fetch") || has_part name (codes "extract_url"))

unfoldable pub is_browser_tool : Text → Bool
unfolding text_eq starts_with
is_browser_tool name =
    starts_with name (codes "browser")
    || starts_with name (codes "cua_browser")
    || text_eq name (codes "computer_use")

unfoldable pub is_code_tool : Text → Bool
unfolding contains
is_code_tool name = contains (codes "execute_code" ∷ codes "python" ∷ codes "terminal" ∷ []) name

-- The rung that a call is charged to. The source's `None` is never returned, so the result is a
-- number, and the callers' tests for `None` are left out.
unfoldable pub tool_stage : Text → ℕ
tool_stage tool_name =
    let name = lower tool_name in
    if text_eq name (codes "web_search") || has_part name (codes "search")
    then 0
    else if is_fetch_tool name
    then 1
    else if is_browser_tool name
    then 2
    else if is_code_tool name
    then 1
    else 2

abbrev pub opaque_retrieval_proxies : List Text
opaque_retrieval_proxies = codes "delegate_task" ∷ []

abbrev pub non_retrieval_setup_tools : List Text
non_retrieval_setup_tools = codes "skill_view" ∷ []
