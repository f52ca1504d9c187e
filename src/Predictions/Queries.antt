-- ===== src/Predictions/Queries.antt =====
-- prediction_machine/core/prediction_store.py: the queries on predictions. Rows that tie in their order stand in
-- the order of their insertion.
use agi_inspired.Prelude.{
  ℕ, Bool, true, false, not, ◌&&◌, Option, none, some, List, if◌then◌else◌, is_some, keep, length,
}
use agi_inspired.Prelude.Text.{Text, text_eq, text_le, contains}
use agi_inspired.Prelude.Sort.{sort_by}
use agi_inspired.Predictions.Rows.{Prediction, valid_prediction_types}

-- An optional filter on the type: none, or an equality.
unfoldable pub of_type : Option Text → Prediction → Bool
unfolding text_eq
of_type none p = true
of_type (some t) p = text_eq p.prediction_type t

-- `_validate_prediction_type` of an optional type: an error is `none`.
unfoldable pub with_type : {A : Type 0} → Option Text → A → Option A
unfolding contains
with_type none a = some a
with_type (some t) a = if contains valid_prediction_types t then some a else none

unfoldable pub is_pending : Text → Option Text → Prediction → Bool
unfolding text_le of_type
is_pending now t p =
    not (is_some p.actual) && p.valid_for_training && text_le p.outcome_due_at now && of_type t p

unfoldable pub due_order : Prediction → Prediction → Bool
unfolding text_le
due_order p q = text_le p.outcome_due_at q.outcome_due_at

unfoldable pub created_order : Prediction → Prediction → Bool
unfolding text_le
created_order p q = text_le p.created_at q.created_at

unfoldable pub created_order_down : Prediction → Prediction → Bool
unfolding text_le
created_order_down p q = text_le q.created_at p.created_at

-- `get_pending_outcomes`
unfoldable pub get_pending_outcomes :
    Text → Option Text → List Prediction → Option (List Prediction)
unfolding with_type keep is_pending sort_by due_order
get_pending_outcomes now t ps = with_type t (sort_by due_order (keep (is_pending now t) ps))

unfoldable pub is_mature : Option Text → Bool → Prediction → Bool
unfolding of_type
is_mature t valid_only p =
    is_some p.actual && of_type t p && (if valid_only then p.valid_for_training else true)

-- `get_mature_predictions`
unfoldable pub get_mature_predictions :
    Option Text → Bool → List Prediction → Option (List Prediction)
unfolding with_type keep is_mature sort_by created_order
get_mature_predictions t valid_only ps =
    with_type t (sort_by created_order (keep (is_mature t valid_only) ps))

-- `valid_for_training = 1`, `= 0`, or no filter.
unfoldable pub of_validity : Option Bool → Prediction → Bool
of_validity none p = true
of_validity (some true) p = p.valid_for_training
of_validity (some false) p = not p.valid_for_training

-- `get_all_predictions`
unfoldable pub get_all_predictions :
    Option Text → Option Bool → List Prediction → Option (List Prediction)
unfolding with_type keep of_type of_validity sort_by created_order_down
get_all_predictions t valid_only ps =
    with_type t
      (sort_by created_order_down (keep (λ p. of_type t p && of_validity valid_only p) ps))

-- `count_predictions`
unfoldable pub count_predictions : Option Text → List Prediction → Option ℕ
unfolding with_type keep of_type
count_predictions t ps = with_type t (length (keep (of_type t) ps))
