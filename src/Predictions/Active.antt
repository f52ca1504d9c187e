-- ===== src/Predictions/Active.antt =====
-- prediction_machine/core/prediction_store.py: one active version for a type, if activations do not interleave.
use agi_inspired.Prelude.{
  ◌+◌, ◌≤◌, Bool, true, false, Option, none, some, List, [], ◌∷◌, All, count, count-append, ◌≡◌,
  inl, inr, refl, sym, ◌∙◌, ap, Bool-cases, arith,
}
use agi_inspired.Prelude.Text.{Text, text_eq, text_eq_sound, text_eq_refl, contains}
use agi_inspired.Predictions.Rows.{valid_prediction_types}
use agi_inspired.Predictions.Versions.{
  ModelVersion, find_version, insert_version, register_model_version, deactivate_type,
  activate_version, activate_found, activate_model_version, is_active_of, find_active,
  get_active_version,
}

unfoldable pub is_version : Text → ModelVersion → Bool
unfolding text_eq
is_version v m = text_eq m.version v

-- Each version stands in the table once, and each type has one active version at most.
abbrev pub IsUnique : List ModelVersion → Type 0
IsUnique ms = (v : Text) → count (is_version v) ms ≤ 1

abbrev pub OneActive : List ModelVersion → Type 0
OneActive ms = (t : Text) → count (is_active_of t) ms ≤ 1

-- Every row of a version has a type.
abbrev pub HasType : Text → Text → List ModelVersion → Type 0
HasType v t ms = All (λ m. text_eq m.version v ≡ true → m.prediction_type ≡ t) ms

count-deactivate_version :
    (v t : Text) (ms : List ModelVersion)
    → count (is_version v) (deactivate_type t ms) ≡ count (is_version v) ms
unfolding count deactivate_type is_version
count-deactivate_version v t [] = refl
count-deactivate_version v t (m ∷ ms) = ground (arith, count-deactivate_version v t ms)

count-activate_version :
    (v w : Text) (ms : List ModelVersion)
    → count (is_version v) (activate_version w ms) ≡ count (is_version v) ms
unfolding count activate_version is_version
count-activate_version v w [] = refl
count-activate_version v w (m ∷ ms) = ground (arith, count-activate_version v w ms)

-- After the first UPDATE no version of the type is active, and those of other types are as before.
count-deactivate_same :
    (t : Text) (ms : List ModelVersion) → count (is_active_of t) (deactivate_type t ms) ≡ 0
unfolding count deactivate_type is_active_of
count-deactivate_same t [] = refl
count-deactivate_same t (m ∷ ms) = ground (arith, count-deactivate_same t ms)

count-deactivate_le :
    (t u : Text) (ms : List ModelVersion)
    → count (is_active_of u) (deactivate_type t ms) ≤ count (is_active_of u) ms
unfolding count deactivate_type is_active_of
count-deactivate_le t u [] = omega arith
count-deactivate_le t u (m ∷ ms) = ground (arith, count-deactivate_le t u ms)

-- The second UPDATE makes as many more active as rows have the version.
count-activate_le :
    (v u : Text) (ms : List ModelVersion)
    → count (is_active_of u) (activate_version v ms)
      ≤ count (is_active_of u) ms + count (is_version v) ms
unfolding count activate_version is_active_of is_version
count-activate_le v u [] = omega arith
count-activate_le v u (m ∷ ms) = ground (arith, count-activate_le v u ms)

-- It leaves the types that no row of the version has.
count-activate_other :
    (v t u : Text) (ms : List ModelVersion)
    → HasType v t ms
    → text_eq t u ≡ false
    → count (is_active_of u) (activate_version v ms) ≡ count (is_active_of u) ms
unfolding count activate_version is_active_of
count-activate_other v t u [] h ne = refl
count-activate_other v t u (m ∷ ms) h ne = elim (Bool-cases (text_eq m.version v)) [
  | inl e ↦
      let away : text_eq m.prediction_type u ≡ false = rw (h.0 e) ne in
      rw (e, away, count-activate_other v t u ms h.1 ne) refl
  | inr e ↦ rw (e, count-activate_other v t u ms h.1 ne) refl
]

deactivate-HasType :
    (v t u : Text) (ms : List ModelVersion) → HasType v t ms → HasType v t (deactivate_type u ms)
unfolding deactivate_type
deactivate-HasType v t u [] h = tt
deactivate-HasType v t u (m ∷ ms) h = elim (Bool-cases (text_eq m.prediction_type u)) [
  | inl e ↦ rw e (h.0, deactivate-HasType v t u ms h.1)
  | inr e ↦ rw e (h.0, deactivate-HasType v t u ms h.1)
]

none-HasType : (v t : Text) (ms : List ModelVersion) → count (is_version v) ms ≤ 0 → HasType v t ms
unfolding count is_version
none-HasType v t [] h = tt
none-HasType v t (m ∷ ms) h = (λ e. absurd (ground arith), none-HasType v t ms (ground arith))

-- The row that is found has the type of every row of its version.
found-HasType :
    (v : Text) (ms : List ModelVersion) (m : ModelVersion)
    → count (is_version v) ms ≤ 1
    → find_version v ms ≡ some m
    → HasType v m.prediction_type ms
unfolding count is_version find_version
found-HasType v [] m once e = tt
found-HasType v (k ∷ ms) m once e = elim (Bool-cases (text_eq k.version v)) [
  | inl y ↦
      let s : some k ≡ some m = rw y at e in
      let k≡m : k ≡ m = cc s in
      (λ y'. ap (λ x. x.prediction_type) k≡m, none-HasType v m.prediction_type ms (ground arith))
  | inr n ↦ (λ y. absurd (cc (n, y)), found-HasType v ms m (ground arith) (rw n at e))
]

activated-IsUnique :
    (v : Text) (ms : List ModelVersion) (o : Option ModelVersion)
    → IsUnique ms
    → IsUnique (activate_found v ms o).0
unfolding activate_found
activated-IsUnique v ms none h w = h w
activated-IsUnique v ms (some m) h w =
    rw
      (
        count-activate_version w v (deactivate_type m.prediction_type ms),
        count-deactivate_version w m.prediction_type ms,
      )
      (h w)

activated-OneActive :
    (v : Text) (ms : List ModelVersion) (o : Option ModelVersion)
    → find_version v ms ≡ o
    → IsUnique ms
    → OneActive ms
    → OneActive (activate_found v ms o).0
unfolding activate_found
activated-OneActive v ms none e u h t = h t
activated-OneActive v ms (some m) e u h t = elim (Bool-cases (text_eq m.prediction_type t)) [
  | inl y ↦
      let same = text_eq_sound m.prediction_type t y in
      ground (
        arith,
        count-activate_le v t (deactivate_type m.prediction_type ms),
        count-deactivate_version v m.prediction_type ms,
        u v,
        ap (λ x. count (is_active_of x) (deactivate_type m.prediction_type ms)) same,
        count-deactivate_same m.prediction_type ms,
      )
  | inr n ↦
      let ty =
        deactivate-HasType v m.prediction_type m.prediction_type ms
          (found-HasType v ms m (u v) e) in
      ground (
        arith,
        count-activate_other v m.prediction_type t (deactivate_type m.prediction_type ms) ty n,
        count-deactivate_le m.prediction_type t ms,
        h t,
      )
]

-- A version that is not found has no row.
unfound-count :
    (v : Text) (ms : List ModelVersion) → find_version v ms ≡ none → count (is_version v) ms ≡ 0
unfolding count is_version find_version
unfound-count v [] e = refl
unfound-count v (m ∷ ms) e = elim (Bool-cases (text_eq m.version v)) [
  | inl y ↦ let s : some m ≡ none = rw y at e in absurd (cc s)
  | inr n ↦ rw (n, unfound-count v ms (rw n at e)) refl
]

registered-IsUnique :
    (m : ModelVersion) (ms : List ModelVersion) (o : Option ModelVersion)
    → find_version m.version ms ≡ o
    → IsUnique ms
    → IsUnique (insert_version (record m { active = false }) ms o).0
unfolding insert_version
registered-IsUnique m ms (some k) e u v = u v
registered-IsUnique m ms none e u v = elim (Bool-cases (text_eq m.version v)) [
  | inl y ↦
      let free = ap (λ x. find_version x ms) (sym (text_eq_sound m.version v y)) ∙ e in
      unfold count is_version in
      ground (
        arith,
        unfound-count v ms free,
        count-append (is_version v) ms (record m { active = false } ∷ []),
      )
  | inr n ↦
      unfold count is_version in
      ground (arith, u v, count-append (is_version v) ms (record m { active = false } ∷ []))
]

registered-OneActive :
    (m : ModelVersion) (ms : List ModelVersion) (o : Option ModelVersion)
    → OneActive ms
    → OneActive (insert_version (record m { active = false }) ms o).0
unfolding insert_version
registered-OneActive m ms (some k) h t = h t
registered-OneActive m ms none h t =
    unfold count is_active_of in
    ground (arith, h t, count-append (is_active_of t) ms (record m { active = false } ∷ []))

-- Registrations and activations, one after the other.
pub data Reach : List ModelVersion → List ModelVersion → Type 0 where
  start : {ms : List ModelVersion} → Reach ms ms
  registers :
      {ms ns : List ModelVersion}
      → Reach ms ns
      → (m : ModelVersion) → Reach ms (register_model_version m ns).0
  activates :
      {ms ns : List ModelVersion}
      → Reach ms ns
      → (v : Text) → Reach ms (activate_model_version v ns).0

abbrev pub IsProper : List ModelVersion → Type 0
IsProper ms = IsUnique ms × OneActive ms

register-IsProper :
    (m : ModelVersion) (ms : List ModelVersion)
    → IsProper ms
    → IsProper (register_model_version m ms).0
unfolding register_model_version
register-IsProper m ms h = elim (Bool-cases (contains valid_prediction_types m.prediction_type)) [
  | inl e ↦ rw e (
    registered-IsUnique m ms (find_version m.version ms) refl h.0,
    registered-OneActive m ms (find_version m.version ms) h.1,
  )
  | inr e ↦ rw e h
]

activate-IsProper :
    (v : Text) (ms : List ModelVersion) → IsProper ms → IsProper (activate_model_version v ms).0
unfolding activate_model_version
activate-IsProper v ms h = (
  activated-IsUnique v ms (find_version v ms) h.0,
  activated-OneActive v ms (find_version v ms) refl h.0 h.1,
)

-- In every sequence of registrations and activations that starts with a table in which each version stands
-- once and each type has at most one active version, such as the empty table, this stays so.
pub Reach-IsProper : {ms ns : List ModelVersion} → Reach ms ns → IsProper ms → IsProper ns
Reach-IsProper start h = h
Reach-IsProper (registers {ns} r m) h = register-IsProper m ns (Reach-IsProper r h)
Reach-IsProper (activates {ns} r v) h = activate-IsProper v ns (Reach-IsProper r h)

-- Rows of one version have the type that is asked for, and the first of them is active.
find_active-activated :
    (v t : Text) (ms : List ModelVersion) (m : ModelVersion)
    → HasType v t ms
    → find_version v ms ≡ some m
    → find_active t (activate_version v (deactivate_type t ms)) ≡ some v
unfolding find_active activate_version deactivate_type find_version is_active_of
find_active-activated v t [] m h e = absurd (cc e)
find_active-activated v t (k ∷ ms) m h e = elim (Bool-cases (text_eq k.version v)) [
  | inl y ↦
      let ty : text_eq k.prediction_type t ≡ true = rw (h.0 y) (text_eq_refl t) in
      rw (ty, y, ty) (ap some (text_eq_sound k.version v y))
  | inr n ↦
      let rest = find_active-activated v t ms m h.1 (rw n at e) in
      elim (Bool-cases (text_eq k.prediction_type t)) [
        | inl ty ↦ rw (ty, n, ty) rest
        | inr ty ↦ rw (ty, n, ty) rest
      ]
]

activated_found :
    (v : Text) (ms : List ModelVersion) (o : Option ModelVersion) (m : ModelVersion)
    → o ≡ some m
    → find_version v ms ≡ some m
    → IsUnique ms
    → find_active m.prediction_type (activate_found v ms o).0 ≡ some v
unfolding activate_found
activated_found v ms none m e f u = absurd (cc e)
activated_found v ms (some k) m e f u =
    let k≡m : k ≡ m = cc e in
    rw k≡m (find_active-activated v m.prediction_type ms m (found-HasType v ms m (u v) f) f)

-- After an activation of a registered version that nothing interrupts, it is the active version of its type.
pub activate-get_active :
    (v : Text) (ms : List ModelVersion) (m : ModelVersion)
    → IsUnique ms
    → find_version v ms ≡ some m
    → contains valid_prediction_types m.prediction_type ≡ true
    → get_active_version m.prediction_type (activate_model_version v ms).0 ≡ some (some v)
unfolding get_active_version activate_model_version
activate-get_active v ms m u f valid =
    rw valid (ap some (activated_found v ms (find_version v ms) m f f u))
