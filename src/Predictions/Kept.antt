-- ===== src/Predictions/Kept.antt =====
-- prediction_machine/core/prediction_store.py: predictions are immutable and outcomes are written once.
use agi_inspired.Prelude.{
  Bool, true, false, Option, none, some, List, is_some, ◌≡◌, ◌≢◌, inl, inr, refl, sym, ◌∙◌, ap,
  subst, Bool-cases,
}
use agi_inspired.Prelude.Text.{Text, text_eq, text_eq_sound, contains}
use agi_inspired.Predictions.Rows.{
  Prediction, get_prediction, update_prediction, valid_prediction_types, valid_confidence_levels,
}
use agi_inspired.Predictions.Store.{
  Draft, new_row, insert_row, create_prediction, Report, Checked, missing, already_recorded,
  anti_cheat_violation, may_record, with_outcome, outcome_written, write_outcome, record_outcome,
  invalidated, invalidate_prediction,
}
use agi_inspired.Predictions.Lookup.{changed, get-update, get-update_other, get-append}

-- The columns that are never changed, and those of the outcome.
pub record Fixed : Type 0 where
  pub prediction_id : Text
  pub prediction_type : Text
  pub created_at : Text
  pub target : Text
  pub prediction : Text
  pub confidence : Text
  pub input_features : Text
  pub model_version : Text
  pub code_commit : Option Text
  pub outcome_due_at : Text

pub record Outcome : Type 0 where
  pub actual : Option Text
  pub actual_recorded_at : Option Text
  pub actual_source : Option Text
  pub error : Option Text

abbrev pub fixed : Prediction → Fixed
fixed p = record {
  prediction_id = p.prediction_id;
  prediction_type = p.prediction_type;
  created_at = p.created_at;
  target = p.target;
  prediction = p.prediction;
  confidence = p.confidence;
  input_features = p.input_features;
  model_version = p.model_version;
  code_commit = p.code_commit;
  outcome_due_at = p.outcome_due_at;
}

abbrev pub outcome : Prediction → Outcome
outcome p = record {
  actual = p.actual;
  actual_recorded_at = p.actual_recorded_at;
  actual_source = p.actual_source;
  error = p.error;
}

pub some-injective : (x y : Prediction) → some x ≡ some y → x ≡ y
some-injective x y e = cc

-- A later state of a row: what is fixed is the same, and a recorded outcome is the same.
abbrev pub Keeps : Prediction → Prediction → Type 0
Keeps p q = (fixed p ≡ fixed q) × (p.actual_recorded_at ≢ none → outcome p ≡ outcome q)

Keeps-trans : (p q r : Prediction) → Keeps p q → Keeps q r → Keeps p r
Keeps-trans p q r (f, o) (g, u) =
    (f ∙ g, λ h. o h ∙ u (λ e. h (ap (λ x. x.actual_recorded_at) (o h) ∙ e)))

-- The row of an id before has a later state after.
abbrev pub StillThere : Text → List Prediction → List Prediction → Type 0
StillThere id ps qs =
    (p : Prediction)
    → get_prediction id ps ≡ some p
    → (q : Prediction) × (get_prediction id qs ≡ some q) × Keeps p q

pub same_id :
    (g : Prediction → Prediction)
    → ((p : Prediction) → Keeps p (g p))
    → (p : Prediction) → (g p).prediction_id ≡ p.prediction_id
same_id g keeps p = sym (ap (λ f. f.prediction_id) (keeps p).0)

changed-StillThere :
    (g : Prediction → Prediction)
    → ((p : Prediction) → Keeps p (g p))
    → (o : Option Prediction) (p : Prediction) → o ≡ some p
    → (q : Prediction) × (changed g o ≡ some q) × Keeps p q
unfolding changed
changed-StillThere g keeps none p e = absurd (cc e)
changed-StillThere g keeps (some x) p e =
    (g x, refl, subst (λ r. Keeps r (g x)) (some-injective x p e) (keeps x))

update-StillThere :
    (id i : Text) (g : Prediction → Prediction)
    → ((p : Prediction) → Keeps p (g p))
    → (ps : List Prediction) → StillThere i ps (update_prediction id g ps)
update-StillThere id i g keeps ps p e = elim (Bool-cases (text_eq id i)) [
  | inl y ↦
      let s = text_eq_sound id i y in
      let (q, h, k) =
        changed-StillThere g keeps (get_prediction id ps) p (ap (λ t. get_prediction t ps) s ∙ e) in
      (
        q,
        ap (λ t. get_prediction t (update_prediction id g ps)) (sym s)
            ∙ (get-update id g (same_id g keeps) ps ∙ h),
        k,
      )
  | inr n ↦ (p, get-update_other id g (same_id g keeps) i ps n ∙ e, (refl, λ _. refl))
]

with_outcome-Keeps :
    (now : Text) (r : Report) (p : Prediction) (o : Option Text)
    → p.actual_recorded_at ≡ o
    → Keeps p (with_outcome now r p o)
unfolding with_outcome
with_outcome-Keeps now r p (some at) e = (refl, λ h. refl)
with_outcome-Keeps now r p none e = (refl, λ h. absurd (h e))

pub written-Keeps : (now : Text) (r : Report) (p : Prediction) → Keeps p (outcome_written now r p)
unfolding outcome_written
written-Keeps now r p = with_outcome-Keeps now r p p.actual_recorded_at refl

pub invalidated-Keeps : (reason : Text) (p : Prediction) → Keeps p (invalidated reason p)
unfolding invalidated
invalidated-Keeps reason p = (refl, λ h. refl)

StillThere-refl : (id : Text) (ps : List Prediction) → StillThere id ps ps
StillThere-refl id ps p e = (p, e, (refl, λ h. refl))

StillThere-trans :
    (id : Text) (ps qs rs : List Prediction)
    → StillThere id ps qs
    → StillThere id qs rs
    → StillThere id ps rs
StillThere-trans id ps qs rs h k p e =
    let (q, f, a) = h p e in let (r, g, b) = k q f in (r, g, Keeps-trans p q r a b)

create-StillThere :
    (i id now : Text) (d : Draft) (ps : List Prediction)
    → StillThere i ps (create_prediction id now d ps).0
unfolding create_prediction
create-StillThere i id now d ps =
    elim (Bool-cases (contains valid_prediction_types d.prediction_type)) [
      | inr e ↦ rw e (StillThere-refl i ps)
      | inl e ↦ elim (Bool-cases (contains valid_confidence_levels d.confidence)) [
        | inr e' ↦ rw (e, e') (StillThere-refl i ps)
        | inl e' ↦ rw (e, e') (inserted (is_some (get_prediction id ps)))
      ]
    ]
  where
    inserted : (b : Bool) → StillThere i ps (insert_row (new_row id now d) ps b).0
    inserted true = unfold insert_row in StillThere-refl i ps
    inserted false =
        unfold insert_row in (λ p e. (p, get-append i (new_row id now d) ps p e, (refl, λ h. refl)))

write-StillThere :
    (i id now : Text) (r : Report) (ps : List Prediction) (c : Checked)
    → StillThere i ps (write_outcome id now r ps c).0
unfolding write_outcome
write-StillThere i id now r ps may_record =
    update-StillThere id i (outcome_written now r) (written-Keeps now r) ps
write-StillThere i id now r ps missing = StillThere-refl i ps
write-StillThere i id now r ps already_recorded = StillThere-refl i ps
write-StillThere i id now r ps anti_cheat_violation = StillThere-refl i ps

-- What users of the database can do to the rows, in any order. A recording runs its SELECT on one state
-- and its UPDATE on a later one.
pub data Reach : List Prediction → List Prediction → Type 0 where
  start : {ps : List Prediction} → Reach ps ps
  creates :
      {ps qs : List Prediction}
      → Reach ps qs
      → (id now : Text) (d : Draft) → Reach ps (create_prediction id now d qs).0
  records :
      {ps qs rs : List Prediction}
      → Reach ps qs
      → Reach qs rs
      → (id now : Text) (r : Report) → Reach ps (record_outcome id now r qs rs).0
  invalidates :
      {ps qs : List Prediction}
      → Reach ps qs
      → (id reason : Text) → Reach ps (invalidate_prediction id reason qs).0

-- Whatever is created, recorded and invalidated, also where others write between the test and the update of
-- a recording: a prediction that is there stays, none of its ten original columns ever changes, and once
-- its outcome is recorded, neither do the outcome, its time, its source and its error.
pub Reach-StillThere : {ps qs : List Prediction} → Reach ps qs → (id : Text) → StillThere id ps qs
Reach-StillThere {ps} start id = StillThere-refl id ps
Reach-StillThere (creates {ps} {qs} h i now d) id =
    StillThere-trans id ps qs (create_prediction i now d qs).0 (Reach-StillThere h id)
      (create-StillThere id i now d qs)
Reach-StillThere (records {ps} {qs} {rs} h k i now r) id =
    StillThere-trans id ps rs (record_outcome i now r qs rs).0
      (StillThere-trans id ps qs rs (Reach-StillThere h id) (Reach-StillThere k id))
      (unfold record_outcome in write-StillThere id i now r rs _)
Reach-StillThere (invalidates {ps} {qs} h i reason) id =
    StillThere-trans id ps qs (invalidate_prediction i reason qs).0 (Reach-StillThere h id) (
      unfold invalidate_prediction in
      update-StillThere i id (invalidated reason) (invalidated-Keeps reason) qs)
