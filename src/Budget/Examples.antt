-- ===== src/Budget/Examples.antt =====
-- orchestrator/policy.py: the budgets on one finished task and one that waits.
use agi_inspired.Prelude.{◌<◌, none, some, List, [], ◌∷◌, ◌≡◌, ◌⊎◌, refl, keep}
use agi_inspired.Prelude.Text.{codes, text_eq}
use agi_inspired.Ledger.Rows.{Task, done, find_row}
use agi_inspired.Ledger.Store.{new_row}
use agi_inspired.Budget.Limits.{
  spend, spend_of, is_peer, is_settled, larger, max_spend, if_positive, own_spend,
  estimated_tokens_for,
}
use agi_inspired.Budget.Estimates.{IsLargest, estimated_tokens_for_lem}

abbrev waiting : Task
waiting = new_row (codes "r") 1 (codes "m") (codes "s") (codes "c")

abbrev finished_one : Task
finished_one = record (new_row (codes "r") 2 (codes "m") (codes "t") (codes "c")) {
  status = done;
  finished_at = some 90;
  tokens_in = some 30;
  tokens_out = some 12;
}

abbrev rows : List Task
rows = waiting ∷ finished_one ∷ []

estimates : estimated_tokens_for 100 1 (codes "m") rows ≡ some 42
unfolding estimated_tokens_for own_spend find_row if_positive max_spend larger spend spend_of keep
    is_peer is_settled text_eq
estimates = refl

estimated_tokens_for_lem_example :
    (0 < 42)
    × (((t : Task) × (find_row 1 rows ≡ some t) × (spend t ≡ some 42))
        ⊎ (own_spend (find_row 1 rows) ≡ none) × IsLargest 42 (keep (is_peer 100 (codes "m")) rows))
estimated_tokens_for_lem_example = estimated_tokens_for_lem 100 1 (codes "m") rows 42 estimates
