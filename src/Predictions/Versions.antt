-- ===== src/Predictions/Versions.antt =====
-- prediction_machine/core/prediction_store.py: the table `model_versions`. The two UPDATEs of an activation are
-- two transactions of their own.
use agi_inspired.Prelude.{
  Bool, true, false, ◌&&◌, Option, none, some, List, [], ◌∷◌, ◌++◌, if◌then◌else◌,
}
use agi_inspired.Prelude.Text.{Text, text_eq, contains}
use agi_inspired.Predictions.Rows.{valid_prediction_types}

pub record ModelVersion : Type 0 where
  pub version : Text
  pub prediction_type : Text
  pub created_at : Text
  pub description : Option Text
  pub active : Bool
  pub parent_version : Option Text

-- SELECT ... WHERE version = ?
unfoldable pub find_version : Text → List ModelVersion → Option ModelVersion
unfolding text_eq
find_version v [] = none
find_version v (m ∷ ms) =
    let rest = find_version v ms in if text_eq m.version v then some m else rest

pub data Registered : Type 0 where
  registered invalid_version_type already_registered : Registered

unfoldable pub insert_version :
    ModelVersion → List ModelVersion → Option ModelVersion → List ModelVersion × Registered
insert_version m ms none = (ms ++ (m ∷ []), registered)
insert_version m ms (some k) = (ms, already_registered)

-- `register_model_version` of a row, which it inserts as not active.
unfoldable pub register_model_version :
    ModelVersion → List ModelVersion → List ModelVersion × Registered
unfolding contains insert_version find_version
register_model_version m ms =
    if contains valid_prediction_types m.prediction_type
    then insert_version (record m { active = false }) ms (find_version m.version ms)
    else (ms, invalid_version_type)

-- UPDATE ... SET active = 0 WHERE prediction_type = ?
unfoldable pub deactivate_type : Text → List ModelVersion → List ModelVersion
unfolding text_eq
deactivate_type t [] = []
deactivate_type t (m ∷ ms) =
    (if text_eq m.prediction_type t then record m { active = false } else m) ∷ deactivate_type t ms

-- UPDATE ... SET active = 1 WHERE version = ?
unfoldable pub activate_version : Text → List ModelVersion → List ModelVersion
unfolding text_eq
activate_version v [] = []
activate_version v (m ∷ ms) =
    (if text_eq m.version v then record m { active = true } else m) ∷ activate_version v ms

unfoldable pub activate_found :
    Text → List ModelVersion → Option ModelVersion → List ModelVersion × Bool
unfolding deactivate_type activate_version
activate_found v ms none = (ms, false)
activate_found v ms (some m) = (activate_version v (deactivate_type m.prediction_type ms), true)

-- `activate_model_version`; `false` where it raises.
unfoldable pub activate_model_version : Text → List ModelVersion → List ModelVersion × Bool
unfolding activate_found find_version
activate_model_version v ms = activate_found v ms (find_version v ms)

unfoldable pub is_active_of : Text → ModelVersion → Bool
unfolding text_eq
is_active_of t m = text_eq m.prediction_type t && m.active

unfoldable pub find_active : Text → List ModelVersion → Option Text
unfolding is_active_of
find_active t [] = none
find_active t (m ∷ ms) =
    let rest = find_active t ms in if is_active_of t m then some m.version else rest

-- `get_active_version`; the outer `none` is the error on the type.
unfoldable pub get_active_version : Text → List ModelVersion → Option (Option Text)
unfolding contains find_active
get_active_version t ms =
    if contains valid_prediction_types t then some (find_active t ms) else none
