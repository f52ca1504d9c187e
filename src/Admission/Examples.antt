-- ===== src/Admission/Examples.antt =====
-- orchestrator/runtime_admission.py: its functions on a repository that is ready for a release, and on
-- one whose pause was tampered with.
use agi_inspired.Prelude.{true, none, some, List, [], ◌∷◌, all, ◌≡◌, refl, if◌then◌else◌}
use agi_inspired.Prelude.Text.{Text, codes, text_eq, lower, strip, starts_with, has_part}
use agi_inspired.Scheduler.Recovery.{absent}
use agi_inspired.Pause.World.{
  World, Services, no_file, content, no_journal, at, span, authorize_clear_action,
}
use agi_inspired.Pause.Checks.{
  operator_clear_marker, pause_engaged, clear_is_authorized, marker_authorizes, parse_marker,
  verified_text, read_authorizes, explanation, window_authorizes, ttl_allows, is_fresh,
}
use agi_inspired.Pause.Actions.{authorized, classified, verify_pause_integrity}
use agi_inspired.Egress.Load.{is_empty}
use agi_inspired.Egress.Examples.{python, source, host, verifies}
use agi_inspired.Admission.Dependencies.{
  read, Patterns, result, requirements_lock_state, bootstrap_hash_enforcement_state, scan_lines,
}
use agi_inspired.Admission.Checks.{
  provider, roles, Repository, release, AdmissionDecision, get_harness_profile, admission,
  enforce_runtime_admission, check_admission, enforced, blockers_for, estop_blockers,
  release_blockers, egress_blockers, audit_blockers, dependency_blockers, critic_blockers,
  no_blocker, missing, provider_of, provider_blockers, independent,
}
use agi_inspired.Admission.Locked.{IsSealed, requirements_lock_state-IsSealed}
use agi_inspired.Admission.Admitted.{
  IsExplained, IsReleasable, enforce_runtime_admission-IsReleasable,
}

-- Lines that end at commas; a requirement begins with "a" and has its hash at "h".
split_at : Text → List Text
split_at [] = []
split_at (c ∷ t) = (c ∷ []) ∷ split_at t

abbrev patterns : Patterns
patterns = record {
  splitlines = split_at;
  requirement = λ t. if text_eq t (codes "a") then some (codes "A_b") else none;
  hashes = λ t. if text_eq t (codes "h") then 1 else 0;
}

lock_passes : requirements_lock_state patterns (read (codes "#ah")) ≡ result true
unfolding requirements_lock_state scan_lines split_at strip text_eq starts_with all is_empty
lock_passes = refl

requirements_lock_state-IsSealed_example : IsSealed patterns (split_at (codes "#ah"))
requirements_lock_state-IsSealed_example =
    requirements_lock_state-IsSealed patterns (codes "#ah") lock_passes

abbrev ready : Repository
ready = record {
  host = host true;
  python = python;
  policy = source;
  audit = result true;
  patterns = patterns;
  bootstrap = read (codes "--require-hashes --no-deps --no-input");
  lock = read (codes "#ah");
  models = roles (provider (codes "a")) (provider (codes "b")) (provider (codes "a"));
}

abbrev services : Services
services = record {
  sign = λ p. none;
  verify = λ t. some (record {
    issued_at = at 5;
    action = authorize_clear_action;
    purpose = [];
    ttl_hours = span 3;
  });
  inspect = λ pid. absent;
}

abbrev cleared : World
cleared = record {
  home_valid = true;
  configured = true;
  home_is_dir = some true;
  home_has_marker = some true;
  writable = true;
  sentinel = no_file;
  clear_marker = content (codes "m");
  canary_marker = no_file;
  window = no_journal;
}

abbrev decided : AdmissionDecision
decided = record { admitted = true; profile = release; blockers = [] }

none_for_release : release_blockers ready 7 ≡ []
unfolding release_blockers bootstrap_hash_enforcement_state egress_blockers audit_blockers
    dependency_blockers missing critic_blockers provider_of provider_blockers independent has_part
    starts_with lower strip is_empty text_eq all
none_for_release = rw (release_blockers, verifies, lock_passes) refl

checked : verify_pause_integrity services 7 cleared ≡ (cleared, authorized operator_clear_marker)
unfolding verify_pause_integrity classified pause_engaged clear_is_authorized parse_marker
    verified_text read_authorizes explanation window_authorizes marker_authorizes ttl_allows
    is_fresh text_eq strip
checked = refl

unblocked : estop_blockers (cleared, authorized operator_clear_marker) ≡ []
unfolding estop_blockers pause_engaged
unblocked = refl

admits :
    enforce_runtime_admission services ready 7 (some (codes "Release")) cleared
    ≡ (cleared, admission decided)
unfolding enforce_runtime_admission check_admission get_harness_profile blockers_for no_blocker
    enforced lower strip text_eq
admits = rw (enforce_runtime_admission, check_admission, checked, unblocked, none_for_release) refl

enforce_runtime_admission-IsReleasable_example :
    (decided.profile ≡ get_harness_profile ready.host (some (codes "Release")))
    × IsExplained services 7 cleared cleared
    × (decided.profile ≡ release → IsReleasable ready 7)
enforce_runtime_admission-IsReleasable_example =
    enforce_runtime_admission-IsReleasable services ready 7 (some (codes "Release")) cleared cleared
      decided admits
