-- ===== src/Predictions/Selected.antt =====
-- prediction_machine/core/prediction_store.py: what the queries for pending and mature predictions return.
use agi_inspired.Prelude.{
  Bool, true, Option, none, some, List, [], ◌∷◌, All, All-keep, keep, count, ◌≡◌, inl, inr, refl,
  ◌∙◌, subst, Bool-cases, arith,
}
use agi_inspired.Prelude.Text.{Text, text_eq_sound, text_eq_refl, text_le, contains}
use agi_inspired.Prelude.TextOrder.{text_le_total, text_le_trans}
use agi_inspired.Prelude.Sort.{
  sort_by, IsSorted, count-sort_by, sort_by-IsSorted, All-sort_by, All-map,
}
use agi_inspired.Predictions.Rows.{Prediction, valid_prediction_types}
use agi_inspired.Predictions.Queries.{
  of_type, with_type, is_pending, due_order, created_order, get_pending_outcomes, is_mature,
  get_mature_predictions,
}

-- A prediction of the type that is asked for, if one is.
abbrev pub HasType : Option Text → Prediction → Type 0
HasType none p = Unit
HasType (some t) p = p.prediction_type ≡ t

-- Valid, without an outcome, and due by now in the order of texts.
abbrev pub IsPending : Text → Option Text → Prediction → Type 0
IsPending now t p =
    (p.actual ≡ none)
    × (p.valid_for_training ≡ true)
    × (text_le p.outcome_due_at now ≡ true)
    × HasType t p

-- With an outcome, and valid if only valid ones are asked for.
abbrev pub IsMature : Option Text → Bool → Prediction → Type 0
IsMature t valid_only p =
    ((a : Text) × (p.actual ≡ some a))
    × HasType t p
    × (valid_only ≡ true → p.valid_for_training ≡ true)

-- A list is in an order, has only rows with a property, and each row of a table with it as often as
-- the table: a test that only such rows pass counts the same in both.
abbrev pub Selects :
    (Prediction → Prediction → Bool)
    → (Prediction → Type 0)
    → List Prediction
    → List Prediction
    → Type 0
Selects order P ps qs =
    IsSorted order qs
    × All P qs
    × ((q : Prediction → Bool) → ((p : Prediction) → q p ≡ true → P p) → count q qs ≡ count q ps)

of_type-HasType : (t : Option Text) (p : Prediction) → of_type t p ≡ true → HasType t p
unfolding of_type
of_type-HasType none p h = tt
of_type-HasType (some t) p h = text_eq_sound p.prediction_type t h

HasType-of_type : (t : Option Text) (p : Prediction) → HasType t p → of_type t p ≡ true
unfolding of_type
HasType-of_type none p h = refl
HasType-of_type (some t) p h = rw h (text_eq_refl t)

is_pending-IsPending :
    (now : Text) (t : Option Text) (p : Prediction) → is_pending now t p ≡ true → IsPending now t p
unfolding is_pending
is_pending-IsPending now t p h =
    (ground arith, ground arith, ground arith, of_type-HasType t p (ground arith))

IsPending-is_pending :
    (now : Text) (t : Option Text) (p : Prediction) → IsPending now t p → is_pending now t p ≡ true
unfolding is_pending
IsPending-is_pending now t p (a, v, d, ty) = ground (arith, HasType-of_type t p ty)

is_mature-IsMature :
    (t : Option Text) (valid_only : Bool) (p : Prediction)
    → is_mature t valid_only p ≡ true
    → IsMature t valid_only p
unfolding is_mature
is_mature-IsMature t valid_only p h =
    (ground arith, of_type-HasType t p (ground arith), λ e. ground arith)

IsMature-is_mature :
    (t : Option Text) (valid_only : Bool) (p : Prediction)
    → IsMature t valid_only p
    → is_mature t valid_only p ≡ true
unfolding is_mature
IsMature-is_mature t valid_only p ((a, e), ty, v) = ground (arith, HasType-of_type t p ty)

count-keep_all :
    (test q : Prediction → Bool) (ps : List Prediction)
    → ((p : Prediction) → q p ≡ true → test p ≡ true)
    → count q (keep test ps) ≡ count q ps
unfolding count keep
count-keep_all test q [] h = refl
count-keep_all test q (x ∷ ps) h = ground (arith, h x, count-keep_all test q ps h)

-- Keeping the rows that pass a test and sorting them selects the rows with the property that it decides.
sort-Selects :
    (order : Prediction → Prediction → Bool) (P : Prediction → Type 0) (test : Prediction → Bool)
    (ps : List Prediction)
    → ((xs : List Prediction) → IsSorted order (sort_by order xs))
    → ((p : Prediction) → test p ≡ true → P p)
    → ((p : Prediction) → P p → test p ≡ true)
    → Selects order P ps (sort_by order (keep test ps))
sort-Selects order P test ps sorted sound complete = (
  sorted (keep test ps),
  All-sort_by order P (keep test ps) (All-map _ P (keep test ps) sound (All-keep test ps)),
  λ q h.
      count-sort_by order q (keep test ps) ∙ count-keep_all test q ps (λ p e. complete p (h p e)),
)

due-IsSorted : (xs : List Prediction) → IsSorted due_order (sort_by due_order xs)
due-IsSorted =
    sort_by-IsSorted due_order
      (λ p q. unfold due_order in text_le_total p.outcome_due_at q.outcome_due_at)
      (λ p q r.
        unfold due_order in text_le_trans p.outcome_due_at q.outcome_due_at r.outcome_due_at)

created-IsSorted : (xs : List Prediction) → IsSorted created_order (sort_by created_order xs)
created-IsSorted =
    sort_by-IsSorted created_order
      (λ p q. unfold created_order in text_le_total p.created_at q.created_at)
      (λ p q r. unfold created_order in text_le_trans p.created_at q.created_at r.created_at)

with_type-some : {A : Type 0} (t : Option Text) (a b : A) → with_type t a ≡ some b → a ≡ b
unfolding with_type
with_type-some none a b e = cc
with_type-some (some t) a b e = elim (Bool-cases (contains valid_prediction_types t)) [
  | inl y ↦ let s : some a ≡ some b = rw y at e in cc s
  | inr n ↦ let s : none ≡ some b = rw n at e in absurd (cc s)
]

-- When the two queries return, the pending ones are the predictions without an outcome that are valid, due
-- by now and of the type asked for, in the order of their due times, and the mature ones those with an
-- outcome, of the type asked for, and valid if that is asked for, in the order of their creation; no
-- prediction is lost or repeated.
pub queries-Selects :
    (now : Text) (t : Option Text) (valid_only : Bool) (ps qs rs : List Prediction)
    → get_pending_outcomes now t ps ≡ some qs
    → get_mature_predictions t valid_only ps ≡ some rs
    → Selects (λ p q. text_le p.outcome_due_at q.outcome_due_at) (IsPending now t) ps qs
      × Selects (λ p q. text_le p.created_at q.created_at) (IsMature t valid_only) ps rs
unfolding get_pending_outcomes get_mature_predictions due_order created_order
queries-Selects now t valid_only ps qs rs e f = (
  subst (Selects due_order (IsPending now t) ps) (with_type-some t _ qs e) (
      sort-Selects due_order (IsPending now t) (is_pending now t) ps due-IsSorted
        (is_pending-IsPending now t) (IsPending-is_pending now t)),
  subst (Selects created_order (IsMature t valid_only) ps) (with_type-some t _ rs f) (
      sort-Selects created_order (IsMature t valid_only) (is_mature t valid_only) ps
        created-IsSorted (is_mature-IsMature t valid_only) (IsMature-is_mature t valid_only)),
)
