-- ===== src/Predictions/Experiments.antt =====
-- prediction_machine/core/prediction_store.py: the table `experiments`. A metric is a REAL, known by a number.
use agi_inspired.Prelude.{
  ℕ, Bool, true, false, ◌&&◌, Option, none, some, List, [], ◌∷◌, ◌++◌, if◌then◌else◌, keep,
}
use agi_inspired.Prelude.Text.{Text, codes, text_eq, text_le, contains}
use agi_inspired.Prelude.Sort.{sort_by}
use agi_inspired.Predictions.Rows.{valid_prediction_types, valid_experiment_decisions}

pub record Experiment : Type 0 where
  pub experiment_id : Text
  pub created_at : Text
  pub prediction_type : Text
  pub observed_failure : Text
  pub hypothesis : Text
  pub proposed_change : Text
  pub previous_metric : Option ℕ
  pub new_metric : Option ℕ
  pub sample_size : Option ℕ
  pub decision : Text
  pub backtest_details : Option Text

-- The arguments of `create_experiment`.
pub record Proposal : Type 0 where
  pub prediction_type : Text
  pub observed_failure : Text
  pub hypothesis : Text
  pub proposed_change : Text
  pub previous_metric : Option ℕ

unfoldable pub new_experiment : Text → Text → Proposal → Experiment
new_experiment id now p = record {
  experiment_id = id;
  created_at = now;
  prediction_type = p.prediction_type;
  observed_failure = p.observed_failure;
  hypothesis = p.hypothesis;
  proposed_change = p.proposed_change;
  previous_metric = p.previous_metric;
  new_metric = none;
  sample_size = none;
  decision = codes "PENDING";
  backtest_details = none;
}

-- `create_experiment`; `false` where it raises.
unfoldable pub create_experiment : Text → Text → Proposal → List Experiment → List Experiment × Bool
unfolding contains new_experiment
create_experiment id now p es =
    if contains valid_prediction_types p.prediction_type
    then (es ++ (new_experiment id now p ∷ []), true)
    else (es, false)

-- The arguments of `update_experiment` beside the id.
pub record Backtest : Type 0 where
  pub new_metric : ℕ
  pub sample_size : ℕ
  pub decision : Text
  pub backtest_details : Option Text

unfoldable pub tested : Backtest → Experiment → Experiment
tested b e = record e {
  new_metric = some b.new_metric;
  sample_size = some b.sample_size;
  decision = b.decision;
  backtest_details = b.backtest_details;
}

unfoldable pub has_experiment : Text → List Experiment → Bool
unfolding text_eq
has_experiment id [] = false
has_experiment id (e ∷ es) =
    let rest = has_experiment id es in if text_eq e.experiment_id id then true else rest

unfoldable pub update_rows : Text → Backtest → List Experiment → List Experiment
unfolding text_eq tested
update_rows id b [] = []
update_rows id b (e ∷ es) =
    (if text_eq e.experiment_id id then tested b e else e) ∷ update_rows id b es

-- `update_experiment`; `false` where it raises.
unfoldable pub update_experiment : Text → Backtest → List Experiment → List Experiment × Bool
unfolding contains has_experiment update_rows
update_experiment id b es =
    if contains valid_experiment_decisions b.decision && has_experiment id es
    then (update_rows id b es, true)
    else (es, false)

unfoldable pub matches : Option Text → Text → Bool
unfolding text_eq
matches none u = true
matches (some t) u = text_eq u t

unfoldable pub allowed : List Text → Option Text → Bool
unfolding contains
allowed ts none = true
allowed ts (some t) = contains ts t

unfoldable pub newest_first : Experiment → Experiment → Bool
unfolding text_le
newest_first e f = text_le f.created_at e.created_at

-- `get_experiments`; `none` where it raises.
unfoldable pub get_experiments :
    Option Text → Option Text → List Experiment → Option (List Experiment)
unfolding allowed matches keep sort_by newest_first
get_experiments t d es =
    if allowed valid_experiment_decisions d && allowed valid_prediction_types t
    then some
        (sort_by newest_first (keep (λ e. matches t e.prediction_type && matches d e.decision) es))
    else none
