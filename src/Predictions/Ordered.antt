-- ===== src/Predictions/Ordered.antt =====
-- prediction_machine/core/prediction_store.py: no outcome is older than its prediction.
use agi_inspired.Prelude.{
  Bool, true, false, Option, none, some, List, [], ◌∷◌, ◌++◌, if◌then◌else◌, is_some, ◌≡◌, inl, inr,
  refl, sym, ◌∙◌, ap, subst, Bool-cases, Option-cases,
}
use agi_inspired.Prelude.Text.{Text, text_eq, text_le, text_eq_sound, contains}
use agi_inspired.Predictions.Rows.{
  Prediction, get_prediction, update_prediction, valid_prediction_types, valid_confidence_levels,
}
use agi_inspired.Predictions.Store.{
  Draft, new_row, insert_row, create_prediction, Report, Checked, missing, already_recorded,
  anti_cheat_violation, may_record, check_order, check_unrecorded, check_outcome, with_outcome,
  outcome_written, write_outcome, record_outcome, invalidated, invalidate_prediction,
}
use agi_inspired.Predictions.Lookup.{
  changed, get-update, get-update_other, get-append, get-append_none,
}
use agi_inspired.Predictions.Kept.{
  Keeps, same_id, written-Keeps, invalidated-Keeps, some-injective, Reach, start, creates, records,
  invalidates, Reach-StillThere,
}

-- A row whose outcome, if it is recorded, is not older than the prediction.
abbrev pub InOrder : Prediction → Type 0
InOrder p = (t : Text) → p.actual_recorded_at ≡ some t → text_le p.created_at t ≡ true

abbrev pub AllInOrder : List Prediction → Type 0
AllInOrder ps = (id : Text) (p : Prediction) → get_prediction id ps ≡ some p → InOrder p

changed-some :
    (g : Prediction → Prediction) (o : Option Prediction) (p : Prediction)
    → changed g o ≡ some p
    → (q : Prediction) × (o ≡ some q) × (g q ≡ p)
unfolding changed
changed-some g none p e = absurd (cc e)
changed-some g (some q) p e = (q, refl, some-injective (g q) p e)

-- An update that leaves every row of the id in order leaves all rows so.
update-AllInOrder :
    (id : Text) (g : Prediction → Prediction) (ps : List Prediction)
    → ((p : Prediction) → Keeps p (g p))
    → ((q : Prediction) → get_prediction id ps ≡ some q → InOrder q → InOrder (g q))
    → AllInOrder ps
    → AllInOrder (update_prediction id g ps)
update-AllInOrder id g ps keeps good h i p e = elim (Bool-cases (text_eq id i)) [
  | inl y ↦
      let at_id =
        ap (λ t. get_prediction t (update_prediction id g ps)) (text_eq_sound id i y) ∙ e in
      let (q, found, same) =
        changed-some g (get_prediction id ps) p
          (sym (get-update id g (same_id g keeps) ps) ∙ at_id) in
      subst InOrder same (good q found (h id q found))
  | inr n ↦ h i p (sym (get-update_other id g (same_id g keeps) i ps n) ∙ e)
]

append-AllInOrder :
    (x : Prediction) (ps : List Prediction)
    → x.actual_recorded_at ≡ none
    → AllInOrder ps
    → AllInOrder (ps ++ (x ∷ []))
append-AllInOrder x ps unset h i p e = elim (Option-cases (get_prediction i ps)) [
  | inr (q, f) ↦ h i p (f ∙ (sym (get-append i x ps q f) ∙ e))
  | inl f ↦ elim (Bool-cases (text_eq x.prediction_id i)) [
    | inl y ↦
        let s : some x ≡ some p = rw y at (sym (get-append_none i x ps f) ∙ e) in
        subst InOrder (some-injective x p s) (λ t u. absurd (cc (unset, u)))
    | inr n ↦ let s : none ≡ some p = rw n at (sym (get-append_none i x ps f) ∙ e) in absurd (cc s)
  ]
]

inserted-AllInOrder :
    (id now : Text) (d : Draft) (ps : List Prediction) (b : Bool)
    → AllInOrder ps
    → AllInOrder (insert_row (new_row id now d) ps b).0
unfolding insert_row new_row
inserted-AllInOrder id now d ps true h = h
inserted-AllInOrder id now d ps false h = append-AllInOrder (new_row id now d) ps refl h

create-AllInOrder :
    (id now : Text) (d : Draft) (ps : List Prediction)
    → AllInOrder ps
    → AllInOrder (create_prediction id now d ps).0
unfolding create_prediction
create-AllInOrder id now d ps h =
    elim (Bool-cases (contains valid_prediction_types d.prediction_type)) [
      | inr e ↦ rw e h
      | inl e ↦ elim (Bool-cases (contains valid_confidence_levels d.confidence)) [
        | inr e' ↦ rw (e, e') h
        | inl e' ↦ rw (e, e') (inserted-AllInOrder id now d ps (is_some (get_prediction id ps)) h)
      ]
    ]

order_let_through :
    (b : Bool) → (if b then may_record else anti_cheat_violation) ≡ may_record → b ≡ true
order_let_through true e = refl
order_let_through false e = cc e

unrecorded_order :
    (now : Text) (p : Prediction) (a : Option Text)
    → check_unrecorded now p a ≡ may_record
    → text_le p.created_at now ≡ true
unfolding check_unrecorded check_order
unrecorded_order now p none e = order_let_through (text_le p.created_at now) e
unrecorded_order now p (some at) e = absurd (cc e)

-- Where the tests let a recording through, the prediction that they saw is not younger than the clock.
may_record-seen :
    (now : Text) (o : Option Prediction)
    → check_outcome now o ≡ may_record
    → (p : Prediction) × (o ≡ some p) × (text_le p.created_at now ≡ true)
unfolding check_outcome
may_record-seen now none e = absurd (cc e)
may_record-seen now (some p) e = (p, refl, unrecorded_order now p p.actual_recorded_at e)

with_outcome-InOrder :
    (now : Text) (r : Report) (q : Prediction) (a : Option Text)
    → text_le q.created_at now ≡ true
    → InOrder q
    → InOrder (with_outcome now r q a)
unfolding with_outcome
with_outcome-InOrder now r q (some at) le h = λ t e. h t e
with_outcome-InOrder now r q none le h =
    λ t e. let s : now ≡ t = cc e in subst (λ u. text_le q.created_at u ≡ true) s le

write-AllInOrder :
    (id now : Text) (r : Report) (ps : List Prediction) (c : Checked)
    → (c ≡ may_record
        → (q : Prediction) → get_prediction id ps ≡ some q
        → text_le q.created_at now ≡ true)
    → AllInOrder ps
    → AllInOrder (write_outcome id now r ps c).0
unfolding write_outcome
write-AllInOrder id now r ps may_record le h =
    update-AllInOrder id (outcome_written now r) ps (written-Keeps now r)
      (λ q f o.
        unfold outcome_written in with_outcome-InOrder now r q q.actual_recorded_at (le refl q f) o)
      h
write-AllInOrder id now r ps missing le h = h
write-AllInOrder id now r ps already_recorded le h = h
write-AllInOrder id now r ps anti_cheat_violation le h = h

-- What was created before the SELECT of a recording is created at the same time in a later state.
later_order :
    (id now : Text) {qs rs : List Prediction}
    → Reach qs rs
    → check_outcome now (get_prediction id qs) ≡ may_record
    → (q : Prediction) → get_prediction id rs ≡ some q
    → text_le q.created_at now ≡ true
later_order id now {qs} k e q f =
    let (p, seen, le) = may_record-seen now (get_prediction id qs) e in
    let (q', found, keeps) = Reach-StillThere k id p seen in
    let same : q' ≡ q = some-injective q' q (sym found ∙ f) in
    subst (λ t. text_le t now ≡ true) (ap (λ x. x.created_at) keeps.0 ∙ ap (λ x. x.created_at) same)
      le

record-AllInOrder :
    (id now : Text) (r : Report) {qs rs : List Prediction}
    → Reach qs rs
    → AllInOrder rs
    → AllInOrder (record_outcome id now r qs rs).0
unfolding record_outcome
record-AllInOrder id now r {qs} {rs} k o =
    write-AllInOrder id now r rs (check_outcome now (get_prediction id qs)) (later_order id now k) o

invalidate-AllInOrder :
    (id reason : Text) (ps : List Prediction)
    → AllInOrder ps
    → AllInOrder (invalidate_prediction id reason ps).0
unfolding invalidate_prediction invalidated
invalidate-AllInOrder id reason ps o =
    update-AllInOrder id (invalidated reason) ps (invalidated-Keeps reason) (λ q f p. p) o

-- If no outcome in a table has a time before that of its prediction, as in the empty table, this holds after
-- every sequence of operations, also where others write between the test and the
-- update of a recording. The two times may be equal.
pub Reach-AllInOrder : {ps qs : List Prediction} → Reach ps qs → AllInOrder ps → AllInOrder qs
Reach-AllInOrder start o = o
Reach-AllInOrder (creates {qs} h id now d) o = create-AllInOrder id now d qs (Reach-AllInOrder h o)
Reach-AllInOrder (records h k id now r) o =
    record-AllInOrder id now r k (Reach-AllInOrder k (Reach-AllInOrder h o))
Reach-AllInOrder (invalidates {qs} h id reason) o =
    invalidate-AllInOrder id reason qs (Reach-AllInOrder h o)
