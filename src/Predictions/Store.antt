-- ===== src/Predictions/Store.antt =====
-- prediction_machine/core/prediction_store.py: creating, recording and invalidating predictions.
use agi_inspired.Prelude.{
  Bool, true, false, not, Option, none, some, List, [], ◌∷◌, ◌++◌, if◌then◌else◌, is_some,
}
use agi_inspired.Prelude.Text.{Text, text_le, contains}
use agi_inspired.Predictions.Rows.{
  Prediction, valid_confidence_levels, valid_prediction_types, get_prediction, update_prediction,
}

-- The arguments of `create_prediction`, with payloads as their JSON texts.
pub record Draft : Type 0 where
  pub prediction_type : Text
  pub target : Text
  pub prediction : Text
  pub confidence : Text
  pub input_features : Text
  pub model_version : Text
  pub outcome_due_at : Text
  pub code_commit : Option Text

-- What `create_prediction` returns, or the exception that it raises.
pub data Created : Type 0 where
  created : Text → Created
  invalid_type invalid_confidence integrity_error : Created

-- The row that is inserted.
unfoldable pub new_row : Text → Text → Draft → Prediction
new_row id now d = record {
  prediction_id = id;
  prediction_type = d.prediction_type;
  created_at = now;
  target = d.target;
  prediction = d.prediction;
  confidence = d.confidence;
  input_features = d.input_features;
  model_version = d.model_version;
  code_commit = d.code_commit;
  outcome_due_at = d.outcome_due_at;
  actual = none;
  actual_recorded_at = none;
  actual_source = none;
  error = none;
  valid_for_training = true;
  invalid_reason = none;
}

-- The INSERT; the primary key is not in use, or an IntegrityError is raised.
unfoldable pub insert_row : Prediction → List Prediction → Bool → List Prediction × Created
insert_row p ps true = (ps, integrity_error)
insert_row p ps false = (ps ++ (p ∷ []), created p.prediction_id)

-- `create_prediction`; `id` is the new UUID and `now` the text of the clock.
unfoldable pub create_prediction : Text → Text → Draft → List Prediction → List Prediction × Created
unfolding contains insert_row new_row get_prediction
create_prediction id now d ps =
    if not (contains valid_prediction_types d.prediction_type)
    then (ps, invalid_type)
    else if not (contains valid_confidence_levels d.confidence)
    then (ps, invalid_confidence)
    else insert_row (new_row id now d) ps (is_some (get_prediction id ps))

-- The arguments of `record_outcome` beside the id, with payloads as their JSON texts.
pub record Report : Type 0 where
  pub actual : Text
  pub source : Text
  pub error : Option Text

-- What the SELECT and the tests of `record_outcome` end with.
pub data Checked : Type 0 where
  missing already_recorded anti_cheat_violation may_record : Checked

unfoldable pub check_order : Text → Prediction → Checked
unfolding text_le
check_order now p = if text_le p.created_at now then may_record else anti_cheat_violation

unfoldable pub check_unrecorded : Text → Prediction → Option Text → Checked
unfolding check_order
check_unrecorded now p (some at) = already_recorded
check_unrecorded now p none = check_order now p

unfoldable pub check_outcome : Text → Option Prediction → Checked
unfolding check_unrecorded
check_outcome now none = missing
check_outcome now (some p) = check_unrecorded now p p.actual_recorded_at

-- The UPDATE of one row that has the id: only where `actual_recorded_at` is NULL.
unfoldable pub with_outcome : Text → Report → Prediction → Option Text → Prediction
with_outcome now r p (some at) = p
with_outcome now r p none = record p {
  actual = some r.actual;
  actual_recorded_at = some now;
  actual_source = some r.source;
  error = r.error;
}

unfoldable pub outcome_written : Text → Report → Prediction → Prediction
unfolding with_outcome
outcome_written now r p = with_outcome now r p p.actual_recorded_at

-- What `record_outcome` returns, or the error that it raises.
pub data Recorded : Type 0 where
  recorded : Option Prediction → Recorded
  refused : Checked → Recorded

unfoldable pub write_outcome :
    Text → Text → Report → List Prediction → Checked → List Prediction × Recorded
unfolding update_prediction outcome_written get_prediction
write_outcome id now r ps may_record =
    let ps' = update_prediction id (outcome_written now r) ps in
    (ps', recorded (get_prediction id ps'))
write_outcome id now r ps missing = (ps, refused missing)
write_outcome id now r ps already_recorded = (ps, refused already_recorded)
write_outcome id now r ps anti_cheat_violation = (ps, refused anti_cheat_violation)

-- `record_outcome`: the rows `seen` when the SELECT runs, and the rows `ps` when the UPDATE runs, which other
-- users of the database may have changed in between.
unfoldable pub record_outcome :
    Text → Text → Report → List Prediction → List Prediction → List Prediction × Recorded
unfolding write_outcome check_outcome get_prediction
record_outcome id now r seen ps =
    write_outcome id now r ps (check_outcome now (get_prediction id seen))

unfoldable pub invalidated : Text → Prediction → Prediction
invalidated reason p = record p { valid_for_training = false; invalid_reason = some reason }

-- `invalidate_prediction`
unfoldable pub invalidate_prediction : Text → Text → List Prediction → List Prediction × Bool
unfolding update_prediction invalidated get_prediction
invalidate_prediction id reason ps =
    (update_prediction id (invalidated reason) ps, is_some (get_prediction id ps))
