-- ===== src/Admission/Checks.antt =====
-- orchestrator/runtime_admission.py: the profile, the admission and its enforcement.
use agi_inspired.Prelude.{
  ℕ, Bool, true, false, not, ◌&&◌, Option, none, some, List, [], ◌∷◌, ◌++◌, if◌then◌else◌,
}
use agi_inspired.Prelude.Text.{Text, codes, text_eq, contains, lower, strip}
use agi_inspired.Pause.World.{World, Services}
use agi_inspired.Pause.Checks.{pause_engaged}
use agi_inspired.Pause.Actions.{
  Integrity, engaged, tamper_reengaged, not_written, not_checked, authorized,
  verify_pause_integrity,
}
use agi_inspired.Egress.Document.{Source, Python}
use agi_inspired.Egress.Load.{is_empty}
use agi_inspired.Egress.Boundary.{BoundaryError, State, verified, unverified, Host, boundary_state}
use agi_inspired.Admission.Dependencies.{
  Reading, Patterns, Answer, raises, result, requirements_lock_state,
  bootstrap_hash_enforcement_state,
}

-- A role of config/models.yaml: missing or empty, no mapping, or a mapping with the text of
-- `str(role.get("provider") or "")`.
pub data Role : Type 0 where
  no_role not_a_mapping : Role
  provider : Text → Role

-- The file: not readable or no YAML, no mapping of roles, or the three roles worker, critic, manager.
pub data Models : Type 0 where
  unreadable no_roles : Models
  roles : Role → Role → Role → Models

-- The kinds of blockers; those that name an exception or another module's reason are kept without it.
pub data Blocker : Type 0 where
  estop_engaged estop_integrity_failed : Blocker
  egress_boundary_unattested : BoundaryError → Blocker
  audit_retention_unverified audit_retention_error : Blocker
  dependency_bootstrap_hashes_missing dependency_lock_hashes_missing dependency_hash_error : Blocker
  critic_provider_not_independent critic_config_error : Blocker

pub record AdmissionDecision : Type 0 where
  pub admitted : Bool
  pub profile : Text
  pub blockers : List Blocker

-- Everything that an admission looks at beside the pause. `audit` is the answer of
-- `audit_replication.audit_state`; the variables of the environment are those of `host`.
pub record Repository : Type 0 where
  pub host : Host
  pub python : Python
  pub policy : Source
  pub audit : Answer
  pub patterns : Patterns
  pub bootstrap : Reading
  pub lock : Reading
  pub models : Models

abbrev pub release : Text
release = codes "release"

abbrev pub profiles : List Text
profiles = release ∷ codes "development" ∷ codes "canary" ∷ codes "test" ∷ []

unfoldable pub known_profile : Text → Text
unfolding contains
known_profile raw = if contains profiles raw then raw else codes "development"

unfoldable pub profile_in : Option Text → Text
unfolding known_profile
profile_in none = known_profile []
profile_in (some t) = known_profile (lower (strip t))

-- `get_harness_profile`
unfoldable pub get_harness_profile : Host → Option Text → Text
unfolding profile_in
get_harness_profile h none = profile_in (h.variable (codes "HARNESS_PROFILE"))
get_harness_profile h (some []) = profile_in (h.variable (codes "HARNESS_PROFILE"))
get_harness_profile h (some (c ∷ t)) = lower (strip (c ∷ t))

unfoldable pub estop_blockers : World × Integrity → List Blocker
estop_blockers (w, not_written) = estop_integrity_failed ∷ []
estop_blockers (w, not_checked) = estop_integrity_failed ∷ []
estop_blockers (w, engaged) = if pause_engaged w then estop_engaged ∷ [] else []
estop_blockers (w, tamper_reengaged) = if pause_engaged w then estop_engaged ∷ [] else []
estop_blockers (w, authorized how) = if pause_engaged w then estop_engaged ∷ [] else []

-- An exception of the boundary's check is not modelled: `boundary_state` returns its errors.
unfoldable pub egress_blockers : State → List Blocker
egress_blockers (verified p) = []
egress_blockers (unverified e) = egress_boundary_unattested e ∷ []

unfoldable pub audit_blockers : Answer → List Blocker
audit_blockers raises = audit_retention_error ∷ []
audit_blockers (result true) = []
audit_blockers (result false) = audit_retention_unverified ∷ []

unfoldable pub missing : Bool → Blocker → List Blocker
missing true b = []
missing false b = b ∷ []

-- The bootstrap is asked first; an exception of either ends the check.
unfoldable pub dependency_blockers : Answer → Answer → List Blocker
unfolding missing
dependency_blockers raises lock = dependency_hash_error ∷ []
dependency_blockers (result b) raises = dependency_hash_error ∷ []
dependency_blockers (result b) (result l) =
    missing b dependency_bootstrap_hashes_missing ++ missing l dependency_lock_hashes_missing

-- `str((cfg or {}).get("provider") or "").strip().lower()`, `none` where `get` is missing.
unfoldable pub provider_of : Role → Option Text
provider_of no_role = some []
provider_of not_a_mapping = none
provider_of (provider t) = some (lower (strip t))

unfoldable pub independent : Text → Text → Text → Bool
unfolding text_eq
independent worker critic manager =
    not (is_empty worker)
    && not (is_empty critic)
    && not (is_empty manager)
    && not (text_eq worker critic)
    && not (text_eq critic manager)

unfoldable pub provider_blockers : Option Text → Option Text → Option Text → List Blocker
unfolding missing independent
provider_blockers none critic manager = critic_config_error ∷ []
provider_blockers (some w) none manager = critic_config_error ∷ []
provider_blockers (some w) (some c) none = critic_config_error ∷ []
provider_blockers (some w) (some c) (some m) =
    missing (independent w c m) critic_provider_not_independent

unfoldable pub critic_blockers : Models → List Blocker
unfolding provider_blockers provider_of
critic_blockers unreadable = critic_config_error ∷ []
critic_blockers no_roles = provider_blockers (some []) (some []) (some [])
critic_blockers (roles w c m) = provider_blockers (provider_of w) (provider_of c) (provider_of m)

-- The checks of the release profile, from the second on.
unfoldable pub release_blockers : Repository → ℕ → List Blocker
unfolding egress_blockers audit_blockers dependency_blockers critic_blockers
release_blockers r now =
    egress_blockers (boundary_state r.python r.policy r.host now)
    ++ audit_blockers r.audit
    ++ dependency_blockers (bootstrap_hash_enforcement_state r.bootstrap)
        (requirements_lock_state r.patterns r.lock)
    ++ critic_blockers r.models

unfoldable pub no_blocker : List Blocker → Bool
no_blocker [] = true
no_blocker (b ∷ l) = false

unfoldable pub blockers_for : Text → List Blocker → List Blocker → List Blocker
blockers_for target estop others = if text_eq target release then estop ++ others else estop

-- `check_admission`, with the pause's files after it: the check of their integrity may write.
unfoldable pub check_admission :
    Services → Repository → ℕ → Option Text → World → World × AdmissionDecision
unfolding estop_blockers release_blockers no_blocker get_harness_profile blockers_for
check_admission s r now explicit w =
    let target = get_harness_profile r.host explicit in
    let checked = verify_pause_integrity s now w in
    let found = blockers_for target (estop_blockers checked) (release_blockers r now) in
    (checked.0, record { admitted = no_blocker found; profile = target; blockers = found })

-- The decision, or the exception with the profile and the reasons.
pub data Enforced : Type 0 where
  admission : AdmissionDecision → Enforced
  runtime_admission_error : Text → List Blocker → Enforced

unfoldable pub enforced : AdmissionDecision → Enforced
enforced d = if d.admitted then admission d else runtime_admission_error d.profile d.blockers

-- `enforce_runtime_admission`
unfoldable pub enforce_runtime_admission :
    Services → Repository → ℕ → Option Text → World → World × Enforced
unfolding check_admission enforced
enforce_runtime_admission s r now explicit w =
    let (w', d) = check_admission s r now explicit w in (w', enforced d)
