-- ===== src/Predictions/Examples.antt =====
-- prediction_machine/core/prediction_store.py: the tables on concrete data.
use agi_inspired.Prelude.{true, false, none, some, List, [], ◌∷◌, ◌≡◌, refl, arith, count}
use agi_inspired.Prelude.Text.{Text, codes, text_le}
use agi_inspired.Predictions.Rows.{Prediction, get_prediction}
use agi_inspired.Predictions.Store.{
  Draft, created, create_prediction, Report, recorded, record_outcome, new_row, check_outcome,
}
use agi_inspired.Predictions.Queries.{get_pending_outcomes, get_mature_predictions}
use agi_inspired.Predictions.Kept.{StillThere, start, creates, records, Reach-StillThere}
use agi_inspired.Predictions.Refined.{
  Refines, outcome_of, view, spec_record, record_outcome-Refines, record_outcome-late,
}
use agi_inspired.Predictions.Ordered.{AllInOrder, Reach-AllInOrder}
use agi_inspired.Predictions.Versions.{
  ModelVersion, register_model_version, activate_model_version, get_active_version, find_version,
}
use agi_inspired.Predictions.Active.{IsProper, Reach-IsProper}
use agi_inspired.Predictions.Active
use agi_inspired.Predictions.Interleaved.{Runs, activated, StandsActive, two_active}
use agi_inspired.Predictions.Selected.{IsPending, IsMature, Selects, queries-Selects}

abbrev draft : Draft
draft = record {
  prediction_type = codes "skill_safety";
  target = codes "s";
  prediction = codes "{}";
  confidence = codes "low";
  input_features = codes "{}";
  model_version = codes "v1";
  outcome_due_at = codes "5";
  code_commit = none;
}

abbrev report : Report
report = record { actual = codes "1"; source = codes "api"; error = none }

abbrev other_report : Report
other_report = record { actual = codes "2"; source = codes "db"; error = none }

abbrev row : Prediction
row = new_row (codes "a") (codes "3") draft

abbrev one_row : List Prediction
one_row = row ∷ []

creates_one : create_prediction (codes "a") (codes "3") draft [] ≡ (one_row, created (codes "a"))
unfolding create_prediction new_row
creates_one = refl

-- Two recordings of which the second has seen the table before the first.
Reach-StillThere_example :
    StillThere
      (codes "a")
      one_row
      (record_outcome
        (codes "a")
        (codes "4")
        other_report
        one_row
        (record_outcome (codes "a") (codes "3") report one_row one_row).0).0
Reach-StillThere_example =
    Reach-StillThere
      (records start (records start start (codes "a") (codes "3") report) (codes "a") (codes "4")
        other_report)
      (codes "a")

empty_in_order : AllInOrder []
unfolding get_prediction
empty_in_order id p e = absurd (cc e)

Reach-AllInOrder_example :
    AllInOrder
      (record_outcome
        (codes "a")
        (codes "4")
        report
        (create_prediction (codes "a") (codes "3") draft []).0
        (create_prediction (codes "a") (codes "3") draft []).0).0
Reach-AllInOrder_example =
    Reach-AllInOrder
      (records (creates start (codes "a") (codes "3") draft) start (codes "a") (codes "4") report)
      empty_in_order

record_outcome-Refines_example :
    Refines
      (record_outcome (codes "a") (codes "4") report one_row one_row)
      (spec_record (codes "a") (codes "4") (outcome_of (codes "4") report) (view one_row))
record_outcome-Refines_example = record_outcome-Refines (codes "a") (codes "4") report one_row

abbrev settled_row : Prediction
settled_row = record row {
  actual = some (codes "2");
  actual_recorded_at = some (codes "4");
  actual_source = some (codes "db");
}

record_outcome-late_example :
    ((i : Text)
      → get_prediction i
          (record_outcome (codes "a") (codes "4") report one_row (settled_row ∷ [])).0
        ≡ get_prediction i (settled_row ∷ []))
    × ((record_outcome (codes "a") (codes "4") report one_row (settled_row ∷ [])).1
        ≡ recorded (some settled_row))
unfolding check_outcome get_prediction new_row
record_outcome-late_example =
    record_outcome-late (codes "a") (codes "4") report one_row (settled_row ∷ []) settled_row
      (codes "4") refl refl refl

queries-Selects_example :
    Selects
      (λ p q. text_le p.outcome_due_at q.outcome_due_at)
      (IsPending (codes "6") none)
      (settled_row ∷ row ∷ [])
      (row ∷ [])
    × Selects
        (λ p q. text_le p.created_at q.created_at)
        (IsMature none true)
        (settled_row ∷ row ∷ [])
        (settled_row ∷ [])
unfolding get_pending_outcomes get_mature_predictions new_row
queries-Selects_example =
    queries-Selects (codes "6") none true (settled_row ∷ row ∷ []) (row ∷ []) (settled_row ∷ [])
      refl refl

abbrev version_of : Text → ModelVersion
version_of v = record {
  version = v;
  prediction_type = codes "skill_safety";
  created_at = codes "1";
  description = none;
  active = false;
  parent_version = none;
}

abbrev two_versions : List ModelVersion
two_versions = version_of (codes "v1") ∷ version_of (codes "v2") ∷ []

activates_second :
    get_active_version (codes "skill_safety") (activate_model_version (codes "v2") two_versions).0
    ≡ some (some (codes "v2"))
unfolding get_active_version activate_model_version
activates_second = refl

empty-IsProper : IsProper []
unfolding count
empty-IsProper = (λ v. omega arith, λ t. omega arith)

Reach-IsProper_example :
    IsProper
      (activate_model_version
        (codes "v1")
        (register_model_version (version_of (codes "v1")) []).0).0
Reach-IsProper_example =
    Reach-IsProper
      (Active.activates (Active.registers Active.start (version_of (codes "v1"))) (codes "v1"))
      empty-IsProper

two_active_example :
    (ns : List ModelVersion) × Runs
      (codes "skill_safety")
      (codes "v1")
      (codes "v2")
      two_versions
      activated
      activated
      ns
    × StandsActive (codes "v1") (codes "skill_safety") ns
    × StandsActive (codes "v2") (codes "skill_safety") ns
unfolding find_version
two_active_example =
    two_active (codes "skill_safety") (codes "v1") (codes "v2") two_versions
      (version_of (codes "v1"), refl, refl) (version_of (codes "v2"), refl, refl)
