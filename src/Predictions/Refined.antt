-- ===== src/Predictions/Refined.antt =====
-- prediction_machine/core/prediction_store.py: the table as a map of write-once entries, which forgets the order
-- of the rows and their validity.
use agi_inspired.Prelude.{
  subst, Bool, true, false, Option, none, some, List, [], ◌∷◌, ◌++◌, if◌then◌else◌, is_some, ◌≡◌,
  inl, inr, refl, sym, ◌∙◌, ap, Bool-cases, Option-cases,
}
use agi_inspired.Prelude.Text.{Text, text_eq, text_le, text_eq_sound, contains}
use agi_inspired.Predictions.Rows.{
  Prediction, get_prediction, update_prediction, valid_prediction_types, valid_confidence_levels,
}
use agi_inspired.Predictions.Store.{
  Draft, Created, created, new_row, insert_row, create_prediction, Report, may_record, check_order,
  check_unrecorded, check_outcome, with_outcome, outcome_written, Recorded, recorded, refused,
  write_outcome, record_outcome, invalidated, invalidate_prediction,
}
use agi_inspired.Predictions.Lookup.{
  changed, get-update, get-update_other, get-append, get-append_none,
}
use agi_inspired.Predictions.Kept.{
  Fixed, Outcome, fixed, outcome, same_id, written-Keeps, invalidated-Keeps,
}

-- An entry: what is fixed, without an outcome or with one.
pub data Entry : Type 0 where
  unsettled : Fixed → Entry
  settled : Fixed → Outcome → Entry

abbrev pub Register : Type 0
Register = Text → Option Entry

-- The abstract operations, with whether they succeed.
unfoldable pub set_entry : Text → Entry → Register → Register
unfolding text_eq
set_entry id e r i = if text_eq id i then some e else r i

unfoldable pub spec_outcome : Text → Text → Outcome → Register → Option Entry → Register × Bool
unfolding set_entry text_le
spec_outcome id now o r none = (r, false)
spec_outcome id now o r (some (settled f u)) = (r, false)
spec_outcome id now o r (some (unsettled f)) =
    if text_le f.created_at now then (set_entry id (settled f o) r, true) else (r, false)

-- Recording: the entry is there, has no outcome, and is not younger than the clock.
unfoldable pub spec_record : Text → Text → Outcome → Register → Register × Bool
unfolding spec_outcome
spec_record id now o r = spec_outcome id now o r (r id)

-- The table as a register.
unfoldable pub entry_with : Prediction → Option Text → Entry
entry_with p none = unsettled (fixed p)
entry_with p (some at) = settled (fixed p) (outcome p)

unfoldable pub entry_of : Prediction → Entry
unfolding entry_with
entry_of p = entry_with p p.actual_recorded_at

unfoldable pub entry_if : Option Prediction → Option Entry
unfolding entry_of
entry_if none = none
entry_if (some p) = some (entry_of p)

unfoldable pub view : List Prediction → Register
unfolding entry_if get_prediction
view ps id = entry_if (get_prediction id ps)

abbrev pub outcome_of : Text → Report → Outcome
outcome_of now r = record {
  actual = some r.actual;
  actual_recorded_at = some now;
  actual_source = some r.source;
  error = r.error;
}

abbrev pub is_recorded : Recorded → Bool
is_recorded (recorded p) = true
is_recorded (refused c) = false

-- A table and a register with the same entries, and results that agree.
abbrev pub Refines : List Prediction × Recorded → Register × Bool → Type 0
Refines (ps, c) (r, b) = ((i : Text) → view ps i ≡ r i) × (is_recorded c ≡ b)

module _ (id now : Text) (r : Report) (ps : List Prediction) where
  written-entry :
      (p : Prediction)
      → p.actual_recorded_at ≡ none
      → entry_of (outcome_written now r p) ≡ settled (fixed p) (outcome_of now r)
  unfolding entry_of entry_with outcome_written with_outcome
  written-entry p e = rw e refl

  updated-view :
      (p : Prediction)
      → get_prediction id ps ≡ some p
      → p.actual_recorded_at ≡ none
      → (i : Text)
      → view (update_prediction id (outcome_written now r) ps) i
        ≡ set_entry id (settled (fixed p) (outcome_of now r)) (view ps) i
  unfolding view set_entry
  updated-view p e unset i = elim (Bool-cases (text_eq id i)) [
    | inl y ↦
        rw
          (
            y,
            sym (text_eq_sound id i y),
            get-update id (outcome_written now r)
                (same_id (outcome_written now r) (written-Keeps now r)) ps,
            e,
          )
          (unfold changed entry_if in ap some (written-entry p unset))
    | inr n ↦
        rw
          (
            n,
            get-update_other id (outcome_written now r)
                (same_id (outcome_written now r) (written-Keeps now r)) i ps n,
          )
          refl
  ]

  unrecorded-Refines :
      (p : Prediction) (a : Option Text)
      → get_prediction id ps ≡ some p
      → p.actual_recorded_at ≡ a
      → Refines
          (write_outcome id now r ps (check_unrecorded now p a))
          (spec_outcome id now (outcome_of now r) (view ps) (some (entry_with p a)))
  unfolding check_unrecorded check_order entry_with spec_outcome write_outcome
  unrecorded-Refines p (some at) e a = (λ i. refl, refl)
  unrecorded-Refines p none e a = elim (Bool-cases (text_le p.created_at now)) [
    | inl y ↦ rw y (updated-view p e a, refl)
    | inr n ↦ rw n ((λ i. refl), refl)
  ]

  found-Refines :
      (o : Option Prediction)
      → get_prediction id ps ≡ o
      → Refines
          (write_outcome id now r ps (check_outcome now o))
          (spec_outcome id now (outcome_of now r) (view ps) (entry_if o))
  unfolding check_outcome entry_if entry_of
  found-Refines none e = unfold write_outcome spec_outcome in (λ i. refl, refl)
  found-Refines (some p) e = unrecorded-Refines p p.actual_recorded_at e refl

  -- Recording an outcome, where nobody writes in between, is the operation of the register: it succeeds on an
  -- entry without an outcome that is not younger than the clock, sets that outcome and no other
  -- entry, and in every other case it changes nothing.
  pub record_outcome-Refines :
      Refines (record_outcome id now r ps ps) (spec_record id now (outcome_of now r) (view ps))
  unfolding record_outcome spec_record view
  record_outcome-Refines = found-Refines (get_prediction id ps) refl

abbrev pub is_created : Created → Bool
is_created (created id) = true
is_created _ = false

appended-view :
    (i : Text) (x : Prediction) (ps : List Prediction)
    → get_prediction x.prediction_id ps ≡ none
    → x.actual_recorded_at ≡ none
    → view (ps ++ (x ∷ [])) i ≡ set_entry x.prediction_id (unsettled (fixed x)) (view ps) i
unfolding view set_entry
appended-view i x ps free unset = elim (Bool-cases (text_eq x.prediction_id i)) [
  | inl y ↦
      let none_here =
        ap (λ t. get_prediction t ps) (sym (text_eq_sound x.prediction_id i y)) ∙ free in
      rw (y, get-append_none i x ps none_here, y)
        (unfold entry_if entry_of in
          ap (λ a. some (entry_with x a)) unset ∙ unfold entry_with in refl)
  | inr n ↦ elim (Option-cases (get_prediction i ps)) [
    | inl e ↦ rw (n, get-append_none i x ps e, e, n) refl
    | inr (p, e) ↦ rw (n, get-append i x ps p e, e) refl
  ]
]

inserted-view :
    (id now : Text) (d : Draft) (ps : List Prediction) (i : Text) (o : Option Prediction)
    → get_prediction id ps ≡ o
    → view (insert_row (new_row id now d) ps (is_some o)).0 i ≡ (
        if is_created (insert_row (new_row id now d) ps (is_some o)).1
        then set_entry id (unsettled (fixed (new_row id now d))) (view ps) i
        else view ps i)
unfolding insert_row new_row
inserted-view id now d ps i (some p) e = refl
inserted-view id now d ps i none e = appended-view i (new_row id now d) ps e refl

-- Creating a prediction that succeeds is a new entry without an outcome, and one that fails changes nothing.
pub create_prediction-view :
    (id now : Text) (d : Draft) (ps : List Prediction) (i : Text)
    → view (create_prediction id now d ps).0 i ≡ (
        if is_created (create_prediction id now d ps).1
        then set_entry id (unsettled (fixed (new_row id now d))) (view ps) i
        else view ps i)
unfolding create_prediction
create_prediction-view id now d ps i =
    elim (Bool-cases (contains valid_prediction_types d.prediction_type)) [
      | inr e ↦ rw e refl
      | inl e ↦ elim (Bool-cases (contains valid_confidence_levels d.confidence)) [
        | inr e' ↦ rw (e, e') refl
        | inl e' ↦ rw (e, e') (inserted-view id now d ps i (get_prediction id ps) refl)
      ]
    ]

with-invalidated :
    (reason : Text) (p : Prediction) (a : Option Text)
    → entry_with (invalidated reason p) a ≡ entry_with p a
unfolding entry_with invalidated
with-invalidated reason p none = refl
with-invalidated reason p (some at) = refl

entry-invalidated :
    (reason : Text) (o : Option Prediction) → entry_if (changed (invalidated reason) o) ≡ entry_if o
unfolding entry_if changed entry_of invalidated
entry-invalidated reason none = refl
entry-invalidated reason (some p) = ap some (with-invalidated reason p p.actual_recorded_at)

-- Invalidating a prediction does not show in the register.
pub invalidate_prediction-view :
    (id reason : Text) (ps : List Prediction) (i : Text)
    → view (invalidate_prediction id reason ps).0 i ≡ view ps i
unfolding invalidate_prediction view
invalidate_prediction-view id reason ps i = elim (Bool-cases (text_eq id i)) [
  | inl y ↦
      rw
        (
          sym (text_eq_sound id i y),
          get-update id (invalidated reason)
              (same_id (invalidated reason) (invalidated-Keeps reason)) ps,
        )
        (entry-invalidated reason (get_prediction id ps))
  | inr n ↦
      rw
        (get-update_other id (invalidated reason)
          (same_id (invalidated reason) (invalidated-Keeps reason)) i ps n)
        refl
]

-- If the tests of a recording let it through and another user records an outcome before its UPDATE, the report
-- is not written: every lookup finds the row that it found before the UPDATE. And yet no error is
-- raised: the row that is returned is that of the other user.
pub record_outcome-late :
    (id now : Text) (r : Report) (seen ps : List Prediction) (q : Prediction) (at : Text)
    → check_outcome now (get_prediction id seen) ≡ may_record
    → get_prediction id ps ≡ some q
    → q.actual_recorded_at ≡ some at
    → ((i : Text) → get_prediction i (record_outcome id now r seen ps).0 ≡ get_prediction i ps)
      × ((record_outcome id now r seen ps).1 ≡ recorded (some q))
unfolding record_outcome write_outcome
record_outcome-late id now r seen ps q at through found set =
    let same = same_id (outcome_written now r) (written-Keeps now r) in
    let here : get_prediction id (update_prediction id (outcome_written now r) ps) ≡ some q =
      rw (get-update id (outcome_written now r) same ps, found)
        (unfold changed outcome_written with_outcome in rw set refl) in
    rw through (
      λ i. elim (Bool-cases (text_eq id i)) [
        | inl y ↦
            subst
              (λ k.
                get_prediction k (update_prediction id (outcome_written now r) ps)
                ≡ get_prediction k ps)
              (text_eq_sound id i y) (here ∙ sym found)
        | inr n ↦ get-update_other id (outcome_written now r) same i ps n
      ],
      ap recorded here,
    )
