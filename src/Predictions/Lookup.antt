-- ===== src/Predictions/Lookup.antt =====
-- prediction_machine/core/prediction_store.py: what a lookup finds after an UPDATE and an INSERT.
use agi_inspired.Prelude.{
  true, false, Option, none, some, List, [], ◌∷◌, ◌++◌, if◌then◌else◌, ◌≡◌, refl, sym, ◌∙◌, ap, inl,
  inr, Bool-cases,
}
use agi_inspired.Prelude.Text.{Text, text_eq, text_eq_sound}
use agi_inspired.Predictions.Rows.{Prediction, get_prediction, update_prediction}

-- The change of a row that may be there.
unfoldable pub changed : (Prediction → Prediction) → Option Prediction → Option Prediction
changed g none = none
changed g (some p) = some (g p)

pub get-here :
    (i : Text) (x : Prediction) (ps : List Prediction)
    → text_eq x.prediction_id i ≡ true
    → get_prediction i (x ∷ ps) ≡ some x
unfolding get_prediction
get-here i x ps e = rw e refl

pub get-skip :
    (i : Text) (x : Prediction) (ps : List Prediction)
    → text_eq x.prediction_id i ≡ false
    → get_prediction i (x ∷ ps) ≡ get_prediction i ps
unfolding get_prediction
get-skip i x ps e = rw e refl

-- What is found has the id.
pub get_prediction-id :
    (i : Text) (ps : List Prediction) (p : Prediction)
    → get_prediction i ps ≡ some p
    → p.prediction_id ≡ i
get_prediction-id i [] p e = unfold get_prediction in cc e
get_prediction-id i (x ∷ ps) p e = elim (Bool-cases (text_eq x.prediction_id i)) [
  | inl y ↦
      let s : some x ≡ some p = sym (get-here i x ps y) ∙ e in
      let x≡p : x ≡ p = cc s in
      ap (λ r. r.prediction_id) (sym x≡p) ∙ text_eq_sound x.prediction_id i y
  | inr n ↦ get_prediction-id i ps p (sym (get-skip i x ps n) ∙ e)
]

unchanged_head :
    (i : Text) (x : Prediction) (ps qs : List Prediction)
    → get_prediction i ps ≡ get_prediction i qs
    → get_prediction i (x ∷ ps) ≡ get_prediction i (x ∷ qs)
unfolding get_prediction
unchanged_head i x ps qs e = rw e refl

module _ (id : Text) (g : Prediction → Prediction)
    (same : (p : Prediction) → (g p).prediction_id ≡ p.prediction_id) where
  -- Rows of other ids are as before.
  pub get-update_other :
      (i : Text) (ps : List Prediction)
      → text_eq id i ≡ false
      → get_prediction i (update_prediction id g ps) ≡ get_prediction i ps
  unfolding update_prediction
  get-update_other i [] ne = refl
  get-update_other i (x ∷ ps) ne = elim (Bool-cases (text_eq x.prediction_id id)) [
    | inl e ↦
        let away : text_eq x.prediction_id i ≡ false = rw (text_eq_sound x.prediction_id id e) ne in
        rw e (
          get-skip i (g x) (update_prediction id g ps) (rw (same x) away)
          ∙ get-update_other i ps ne
          ∙ sym (get-skip i x ps away))
    | inr e ↦ rw e (unchanged_head i x (update_prediction id g ps) ps (get-update_other i ps ne))
  ]

  pub get-update :
      (ps : List Prediction)
      → get_prediction id (update_prediction id g ps) ≡ changed g (get_prediction id ps)
  unfolding update_prediction changed
  get-update [] = unfold get_prediction in refl
  get-update (x ∷ ps) = elim (Bool-cases (text_eq x.prediction_id id)) [
    | inl e ↦ rw (e, get-here id x ps e) (get-here id (g x) _ (rw (same x) e))
    | inr e ↦
        rw e (rw (get-skip id x ps e, get-skip id x (update_prediction id g ps) e) (get-update ps))
  ]

pub get-append :
    (i : Text) (r : Prediction) (ps : List Prediction) (p : Prediction)
    → get_prediction i ps ≡ some p
    → get_prediction i (ps ++ (r ∷ [])) ≡ some p
unfolding get_prediction
get-append i r [] p e = cc
get-append i r (x ∷ ps) p e = elim (Bool-cases (text_eq x.prediction_id i)) [
  | inl y ↦ rw y (rw y at e)
  | inr n ↦ rw n (get-append i r ps p (rw n at e))
]

pub get-append_none :
    (i : Text) (r : Prediction) (ps : List Prediction)
    → get_prediction i ps ≡ none
    → get_prediction i (ps ++ (r ∷ [])) ≡ (if text_eq r.prediction_id i then some r else none)
unfolding get_prediction
get-append_none i r [] e = refl
get-append_none i r (x ∷ ps) e = elim (Bool-cases (text_eq x.prediction_id i)) [
  | inl y ↦ let e' : some x ≡ none = rw y at e in absurd (cc e')
  | inr n ↦ rw n (get-append_none i r ps (rw n at e))
]
