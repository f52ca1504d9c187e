-- ===== src/Predictions/Rows.antt =====
-- prediction_machine/core/prediction_store.py: the rows of the table `predictions`. A column that may be NULL is
-- an `Option`, a payload is its JSON text, and a time is an ISO text, which SQLite and Python compare as texts.
use agi_inspired.Prelude.{Bool, Option, none, some, List, [], ◌∷◌, if◌then◌else◌}
use agi_inspired.Prelude.Text.{Text, codes, text_eq}

pub record Prediction : Type 0 where
  pub prediction_id : Text
  pub prediction_type : Text
  pub created_at : Text
  pub target : Text
  pub prediction : Text
  pub confidence : Text
  pub input_features : Text
  pub model_version : Text
  pub code_commit : Option Text
  pub outcome_due_at : Text
  pub actual : Option Text
  pub actual_recorded_at : Option Text
  pub actual_source : Option Text
  pub error : Option Text
  pub valid_for_training : Bool
  pub invalid_reason : Option Text

abbrev pub valid_confidence_levels : List Text
valid_confidence_levels = codes "low" ∷ codes "medium" ∷ codes "high" ∷ []

abbrev pub valid_prediction_types : List Text
valid_prediction_types =
    codes "task_outcome"
    ∷ codes "video_engagement"
    ∷ codes "skill_safety"
    ∷ codes "miks_campaign"
    ∷ []

abbrev pub valid_experiment_decisions : List Text
valid_experiment_decisions = codes "ACCEPT" ∷ codes "REJECT" ∷ codes "PENDING" ∷ []

-- `get_prediction`: SELECT * ... WHERE prediction_id = ?
unfoldable pub get_prediction : Text → List Prediction → Option Prediction
unfolding text_eq
get_prediction id [] = none
get_prediction id (p ∷ ps) =
    let rest = get_prediction id ps in if text_eq p.prediction_id id then some p else rest

-- UPDATE predictions SET ... WHERE prediction_id = ?
unfoldable pub update_prediction :
    Text → (Prediction → Prediction) → List Prediction → List Prediction
unfolding text_eq
update_prediction id g [] = []
update_prediction id g (p ∷ ps) =
    (if text_eq p.prediction_id id then g p else p) ∷ update_prediction id g ps
