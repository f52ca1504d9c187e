-- ===== src/Predictions/Interleaved.antt =====
-- prediction_machine/core/prediction_store.py: two activations whose transactions interleave.
use agi_inspired.Prelude.{true, false, some, List, [], ◌∷◌, ◌≡◌, refl, inl, inr, Bool-cases}
use agi_inspired.Prelude.Text.{Text, text_eq}
use agi_inspired.Predictions.Versions.{
  ModelVersion, find_version, deactivate_type, activate_version,
}

-- A version stands in the table with a type, and it is active.
abbrev pub Stands : Text → Text → List ModelVersion → Type 0
Stands v t ms = (m : ModelVersion) × (find_version v ms ≡ some m) × (m.prediction_type ≡ t)

abbrev pub StandsActive : Text → Text → List ModelVersion → Type 0
StandsActive v t ms =
    (m : ModelVersion) × (find_version v ms ≡ some m) × (m.prediction_type ≡ t) × (m.active ≡ true)

deactivate-Stands :
    (v t u : Text) (ms : List ModelVersion) → Stands v t ms → Stands v t (deactivate_type u ms)
unfolding find_version deactivate_type
deactivate-Stands v t u [] (m, e, ty) = absurd (cc e)
deactivate-Stands v t u (k ∷ ms) (m, e, ty) = elim (Bool-cases (text_eq k.version v)) [
  | inl y ↦
      let s : some k ≡ some m = rw y at e in
      let k≡m : k ≡ m = cc s in
      elim (Bool-cases (text_eq k.prediction_type u)) [
        | inl d ↦ rw (d, y) (record k { active = false }, refl, rw k≡m ty)
        | inr d ↦ rw (d, y) (k, refl, rw k≡m ty)
      ]
  | inr n ↦
      let rest = deactivate-Stands v t u ms (m, rw n at e, ty) in
      elim (Bool-cases (text_eq k.prediction_type u)) [
        | inl d ↦ rw (d, n) rest
        | inr d ↦ rw (d, n) rest
      ]
]

activate-Stands :
    (v t w : Text) (ms : List ModelVersion) → Stands v t ms → Stands v t (activate_version w ms)
unfolding find_version activate_version
activate-Stands v t w [] (m, e, ty) = absurd (cc e)
activate-Stands v t w (k ∷ ms) (m, e, ty) = elim (Bool-cases (text_eq k.version v)) [
  | inl y ↦
      let s : some k ≡ some m = rw y at e in
      let k≡m : k ≡ m = cc s in
      elim (Bool-cases (text_eq k.version w)) [
        | inl d ↦ rw (d, y) (record k { active = true }, refl, rw k≡m ty)
        | inr d ↦ rw (d, y) (k, refl, rw k≡m ty)
      ]
  | inr n ↦
      let rest = activate-Stands v t w ms (m, rw n at e, ty) in
      elim (Bool-cases (text_eq k.version w)) [ inl d ↦ rw (d, n) rest | inr d ↦ rw (d, n) rest ]
]

activate-StandsActive :
    (v t : Text) (ms : List ModelVersion) → Stands v t ms → StandsActive v t (activate_version v ms)
unfolding find_version activate_version
activate-StandsActive v t [] (m, e, ty) = absurd (cc e)
activate-StandsActive v t (k ∷ ms) (m, e, ty) = elim (Bool-cases (text_eq k.version v)) [
  | inl y ↦
      let s : some k ≡ some m = rw y at e in
      let k≡m : k ≡ m = cc s in rw (y, y) (record k { active = true }, refl, rw k≡m ty, refl)
  | inr n ↦ rw (n, n) (activate-StandsActive v t ms (m, rw n at e, ty))
]

later-StandsActive :
    (v t w : Text) (ms : List ModelVersion)
    → StandsActive v t ms
    → StandsActive v t (activate_version w ms)
unfolding find_version activate_version
later-StandsActive v t w [] (m, e, ty, on) = absurd (cc e)
later-StandsActive v t w (k ∷ ms) (m, e, ty, on) = elim (Bool-cases (text_eq k.version v)) [
  | inl y ↦
      let s : some k ≡ some m = rw y at e in
      let k≡m : k ≡ m = cc s in
      elim (Bool-cases (text_eq k.version w)) [
        | inl d ↦ rw (d, y) (record k { active = true }, refl, rw k≡m ty, refl)
        | inr d ↦ rw (d, y) (k, refl, rw k≡m ty, rw k≡m on)
      ]
  | inr n ↦
      let rest = later-StandsActive v t w ms (m, rw n at e, ty, on) in
      elim (Bool-cases (text_eq k.version w)) [ inl d ↦ rw (d, n) rest | inr d ↦ rw (d, n) rest ]
]

-- Where two threads have got in an activation of the versions `v` and `w` of a type: both are before the first
-- UPDATE, or one or both have run it.
pub data Phase : Type 0 where
  before deactivated activated : Phase

-- One UPDATE of one of the two threads.
pub data Step (t v w : Text)
    : Phase → Phase → List ModelVersion → Phase → Phase → List ModelVersion → Type 0 where
  first_off :
      {q : Phase} {ms : List ModelVersion}
      → Step t v w before q ms deactivated q (deactivate_type t ms)
  first_on :
      {q : Phase} {ms : List ModelVersion}
      → Step t v w deactivated q ms activated q (activate_version v ms)
  second_off :
      {p : Phase} {ms : List ModelVersion}
      → Step t v w p before ms p deactivated (deactivate_type t ms)
  second_on :
      {p : Phase} {ms : List ModelVersion}
      → Step t v w p deactivated ms p activated (activate_version w ms)

pub data Runs (t v w : Text) (ms : List ModelVersion)
    : Phase → Phase → List ModelVersion → Type 0 where
  ready : Runs t v w ms before before ms
  next :
      {p q p' q' : Phase} {ns ns' : List ModelVersion}
      → Runs t v w ms p q ns
      → Step t v w p q ns p' q' ns'
      → Runs t v w ms p' q' ns'

-- Two threads that each activate a version of the same type can end with both versions active, since the two
-- UPDATEs of an activation are separate transactions.
pub two_active :
    (t v w : Text) (ms : List ModelVersion)
    → Stands v t ms
    → Stands w t ms
    → (ns : List ModelVersion) × Runs t v w ms activated activated ns
      × StandsActive v t ns
      × StandsActive w t ns
two_active t v w ms a b =
    let off = deactivate_type t (deactivate_type t ms) in
    let a' = deactivate-Stands v t t (deactivate_type t ms) (deactivate-Stands v t t ms a) in
    let b' = deactivate-Stands w t t (deactivate_type t ms) (deactivate-Stands w t t ms b) in
    (
      activate_version w (activate_version v off),
      next (next (next (next ready first_off) second_off) first_on) second_on,
      later-StandsActive v t w (activate_version v off) (activate-StandsActive v t off a'),
      activate-StandsActive w t (activate_version v off) (activate-Stands w t v off b'),
    )
