-- ===== src/Budget/Limits.antt =====
-- orchestrator/policy.py: the tokens of a day, the estimate of a task's cost, admission, and the counter
-- of the manager's calls. Times are seconds; a cap is `none` where the policy has no such key.
use agi_inspired.Prelude.{
  ℕ, ◌+◌, ◌*◌, Bool, true, false, ◌&&◌, Option, none, some, List, [], ◌∷◌, ltb, leb, or_else, keep,
  if◌then◌else◌,
}
use agi_inspired.Prelude.Text.{Text, text_eq}
use agi_inspired.Ledger.Rows.{Status, done, failed, Task, find_row}

unfoldable pub finished_since : ℕ → Option ℕ → Bool
finished_since start none = false
finished_since start (some at) = leb start at

-- `tokens_used_today`: the sums pass over columns that are NULL.
unfoldable pub tokens_used_since : ℕ → List Task → ℕ
unfolding finished_since
tokens_used_since start [] = 0
tokens_used_since start (t ∷ ts) =
    let rest = tokens_used_since start ts in
    if finished_since start t.finished_at
    then or_else t.tokens_in 0 + or_else t.tokens_out 0 + rest
    else rest

-- `tokens_in + tokens_out`, which is NULL where either is.
unfoldable pub spend_of : Option ℕ → Option ℕ → Option ℕ
spend_of none o = none
spend_of (some i) none = none
spend_of (some i) (some o) = some (i + o)

unfoldable pub spend : Task → Option ℕ
spend t = spend_of t.tokens_in t.tokens_out

unfoldable pub is_settled : Status → Bool
is_settled done = true
is_settled failed = true
is_settled _ = false

abbrev pub three_weeks : ℕ
three_weeks = 21 * 86_400

-- The rows of the second query; `now` less three weeks is compared without a subtraction.
unfoldable pub is_peer : ℕ → Text → Task → Bool
unfolding text_eq
is_peer now mission t =
    text_eq t.mission_id mission
    && is_settled t.status
    && elim t.finished_at [ none ↦ false | some at ↦ leb now (at + three_weeks) ]

-- `MAX`, which passes over NULL.
unfoldable pub larger : Option ℕ → Option ℕ → Option ℕ
larger none o = o
larger (some a) none = some a
larger (some a) (some b) = if leb a b then some b else some a

unfoldable pub max_spend : List Task → Option ℕ
max_spend [] = none
max_spend (t ∷ ts) = larger (spend t) (max_spend ts)

-- `int(x) if x else None`
unfoldable pub if_positive : Option ℕ → Option ℕ
if_positive none = none
if_positive (some n) = if ltb 0 n then some n else none

unfoldable pub own_spend : Option Task → Option ℕ
own_spend none = none
own_spend (some t) = if_positive (spend t)

unfoldable pub estimated_tokens_for : ℕ → ℕ → Text → List Task → Option ℕ
estimated_tokens_for now id mission tasks = elim (own_spend (find_row id tasks)) [
  | some n ↦ some n
  | none ↦ if_positive (max_spend (keep (is_peer now mission) tasks))
]

-- `bool(cap) and ...`
unfoldable pub in_force : Option ℕ → (ℕ → Bool) → Bool
in_force none test = false
in_force (some cap) test = ltb 0 cap && test cap

unfoldable pub token_budget_breached : Option ℕ → ℕ → List Task → Bool
token_budget_breached cap start tasks = in_force cap (λ c. leb c (tokens_used_since start tasks))

unfoldable pub budget_insufficient_for : Option ℕ → Option ℕ → ℕ → List Task → Bool
budget_insufficient_for none cap start tasks = false
budget_insufficient_for (some e) cap start tasks =
    ltb 0 e && in_force cap (λ c. ltb c (tokens_used_since start tasks + e))

-- The state's file: a JSON object of counts, one that cannot be read counting as empty.
abbrev pub Calls : Type 0
Calls = List (Text × ℕ)

-- `_load_state().get(key, 0)`
unfoldable pub manager_calls : Text → Calls → ℕ
unfolding text_eq
manager_calls key [] = 0
manager_calls key ((k, n) ∷ l) = let rest = manager_calls key l in if text_eq k key then n else rest

-- `record_manager_call`: the days before are dropped.
unfoldable pub record_manager_call : Text → Calls → Calls × ℕ
record_manager_call key state = let n = manager_calls key state + 1 in ((key, n) ∷ [], n)

unfoldable pub manager_call_budget_breached : Option ℕ → Text → Calls → Bool
manager_call_budget_breached cap key state = in_force cap (λ c. leb c (manager_calls key state))
