-- ===== src/Admission/Admitted.antt =====
-- orchestrator/runtime_admission.py: what an admission has established, under each profile.
use agi_inspired.Prelude.{
  ℕ, Bool, true, false, ◌&&◌, Option, none, some, List, [], ◌∷◌, ◌++◌, ◌≡◌, ◌≢◌, inl, inr, refl,
  sym, ap, subst, ◌∙◌, Bool-cases, arith,
}
use agi_inspired.Prelude.Text.{Text, text_eq, text_eq_refl}
use agi_inspired.Pause.World.{World, Services}
use agi_inspired.Pause.Checks.{How, unauthorized, pause_engaged, clear_is_authorized}
use agi_inspired.Pause.Actions.{
  Integrity, engaged, tamper_reengaged, not_written, not_checked, authorized,
  verify_pause_integrity,
}
use agi_inspired.Pause.Closed.{IsClear, verify_pause_integrity_closed}
use agi_inspired.Egress.Document.{EgressPolicy}
use agi_inspired.Egress.Load.{is_empty}
use agi_inspired.Egress.Boundary.{State, verified, unverified, boundary_state}
use agi_inspired.Admission.Dependencies.{
  Answer, raises, result, requirements_lock_state, bootstrap_hash_enforcement_state,
}
use agi_inspired.Admission.Checks.{
  Role, Models, unreadable, no_roles, roles, Blocker, Repository, release, get_harness_profile,
  estop_blockers, egress_blockers, audit_blockers, missing, dependency_blockers, provider_of,
  independent, provider_blockers, critic_blockers, release_blockers, no_blocker, blockers_for,
  check_admission, admission, enforced, enforce_runtime_admission, AdmissionDecision,
}

-- Three providers that are named, the second unlike the others.
abbrev pub IsApart : Text → Text → Text → Type 0
IsApart w c m = (w ≢ []) × (c ≢ []) × (m ≢ []) × (w ≢ c) × (c ≢ m)

-- The critic is of another provider than the worker and the manager, and all three are named.
abbrev pub HasIndependentCritic : Models → Type 0
HasIndependentCritic models =
    (w : Text) × (c : Text) × (m : Text) × (d : Role) × (e : Role) × (f : Role) × (models
      ≡ roles d e f)
    × (provider_of d ≡ some w)
    × (provider_of e ≡ some c)
    × (provider_of f ≡ some m)
    × IsApart w c m

-- What the release profile asks beyond the pause.
abbrev pub IsReleasable : Repository → ℕ → Type 0
IsReleasable r now =
    ((policy : EgressPolicy) × (boundary_state r.python r.policy r.host now ≡ verified policy))
    × (r.audit ≡ result true)
    × (bootstrap_hash_enforcement_state r.bootstrap ≡ result true)
    × (requirements_lock_state r.patterns r.lock ≡ result true)
    × HasIndependentCritic r.models

not_empty : (t : Text) → is_empty t ≡ false → t ≢ []
unfolding is_empty
not_empty [] h = cc
not_empty (c ∷ t) h = λ e. cc

differs : (t u : Text) → text_eq t u ≡ false → t ≢ u
differs t u h = λ e. absurd (ground (arith, text_eq_refl t))

independent-IsApart : (w c m : Text) → independent w c m ≡ true → IsApart w c m
unfolding independent
independent-IsApart w c m h = (
  not_empty w (ground arith),
  not_empty c (ground arith),
  not_empty m (ground arith),
  differs w c (ground arith),
  differs c m (ground arith),
)

none_append : (a b : List Blocker) → no_blocker (a ++ b) ≡ no_blocker a && no_blocker b
unfolding no_blocker
none_append [] b = refl
none_append (x ∷ a) b = refl

none_missing : (b : Bool) (x : Blocker) → no_blocker (missing b x) ≡ b
unfolding no_blocker missing
none_missing true x = refl
none_missing false x = refl

none_egress :
    (s : State)
    → no_blocker (egress_blockers s) ≡ true
    → ((policy : EgressPolicy) × (s ≡ verified policy))
unfolding no_blocker egress_blockers
none_egress (verified p) h = (p, refl)
none_egress (unverified e) h = cc

none_audit : (a : Answer) → no_blocker (audit_blockers a) ≡ true → a ≡ result true
unfolding no_blocker audit_blockers
none_audit raises h = cc
none_audit (result true) h = refl
none_audit (result false) h = cc

none_dependency :
    (a b : Answer)
    → no_blocker (dependency_blockers a b) ≡ true
    → (a ≡ result true) × (b ≡ result true)
unfolding no_blocker dependency_blockers missing
none_dependency raises b h = cc
none_dependency (result x) raises h = cc
none_dependency (result true) (result true) h = (refl, refl)
none_dependency (result false) (result true) h = cc
none_dependency (result true) (result false) h = cc
none_dependency (result false) (result false) h = cc

none_provider :
    (a b c : Option Text)
    → no_blocker (provider_blockers a b c) ≡ true
    → ((w : Text) × (x : Text) × (m : Text) × (a ≡ some w)
        × (b ≡ some x)
        × (c ≡ some m)
        × IsApart w x m)
unfolding no_blocker provider_blockers
none_provider none b c h = cc
none_provider (some w) none c h = cc
none_provider (some w) (some x) none h = cc
none_provider (some w) (some x) (some m) h =
    (w, x, m, refl, refl, refl, independent-IsApart w x m (sym (none_missing _ _) ∙ h))

none_critic : (m : Models) → no_blocker (critic_blockers m) ≡ true → HasIndependentCritic m
unfolding no_blocker critic_blockers
none_critic unreadable h = cc
none_critic no_roles h =
    let (w, c, m, ew, ec, em, apart) = none_provider (some []) (some []) (some []) h in
    absurd (apart.0 cc)
none_critic (roles d e f) h =
    let (w, c, m, ew, ec, em, i) =
      none_provider (provider_of d) (provider_of e) (provider_of f) h in
    (w, c, m, d, e, f, refl, ew, ec, em, i)

-- No blocker of a release means that every prerequisite holds.
release_blockers-IsReleasable :
    (r : Repository) (now : ℕ) → no_blocker (release_blockers r now) ≡ true → IsReleasable r now
unfolding release_blockers
release_blockers-IsReleasable r now h =
    let e = egress_blockers (boundary_state r.python r.policy r.host now) in
    let a = audit_blockers r.audit in
    let d =
      dependency_blockers (bootstrap_hash_enforcement_state r.bootstrap)
        (requirements_lock_state r.patterns r.lock) in
    let c = critic_blockers r.models in
    let all_none = rw (none_append _ c, none_append _ d, none_append e a) at h in
    let (d1, d2) =
      none_dependency (bootstrap_hash_enforcement_state r.bootstrap)
        (requirements_lock_state r.patterns r.lock) (ground arith) in
    (
      none_egress (boundary_state r.python r.policy r.host now) (ground arith),
      none_audit r.audit (ground arith),
      d1,
      d2,
      none_critic r.models (ground arith),
    )

estop_none :
    (w : World) (i : Integrity)
    → no_blocker (estop_blockers (w, i)) ≡ true
    → (i ≢ not_written) × (i ≢ not_checked) × (pause_engaged w ≡ false)
unfolding estop_blockers no_blocker
estop_none w not_written h = cc
estop_none w not_checked h = cc
estop_none w engaged h = (λ e. cc, λ e. cc, ground arith)
estop_none w tamper_reengaged h = (λ e. cc, λ e. cc, ground arith)
estop_none w (authorized how) h = (λ e. cc, λ e. cc, ground arith)

-- What an admission has found of the pause: nothing was written, the sentinel is cleanly absent, and
-- the operator's marker or a controlled window explains it.
abbrev pub IsExplained : Services → ℕ → World → World → Type 0
IsExplained s now w w' =
    (w' ≡ w)
    × IsClear w
    × ((how : How) × (how ≢ unauthorized) × (clear_is_authorized s now w ≡ some (true, how)))

estop-IsExplained :
    (s : Services) (now : ℕ) (w : World)
    → no_blocker (estop_blockers (verify_pause_integrity s now w)) ≡ true
    → IsExplained s now w (verify_pause_integrity s now w).0
estop-IsExplained s now w h =
    let (written, checked, clear) =
      estop_none (verify_pause_integrity s now w).0 (verify_pause_integrity s now w).1 h in
    elim (verify_pause_integrity_closed s now w) [
      | inl (e, i) ↦ absurd (ground arith)
      | inr (inl (e, i, same)) ↦ absurd (written e)
      | inr (inr (inl (e, same, c, u))) ↦ absurd (checked e)
      | inr (inr (inr (same, c, (how, e, known, a)))) ↦ (same, c, (how, known, a))
    ]

blockers_for_lem :
    (t : Text) (a b : List Blocker)
    → no_blocker (blockers_for t a b) ≡ true
    → (no_blocker a ≡ true) × (t ≡ release → no_blocker b ≡ true)
unfolding blockers_for
blockers_for_lem t a b h = elim (Bool-cases (text_eq t release)) [
  | inl e ↦ let both = sym (none_append a b) ∙ (rw e at h) in (ground arith, λ r. ground arith)
  | inr e ↦ ((rw e at h), λ r. absurd (differs t release e r))
]

enforced_lem :
    (d d' : AdmissionDecision) → enforced d ≡ admission d' → (d ≡ d') × (d.admitted ≡ true)
unfolding enforced
enforced_lem d d' h = elim (Bool-cases d.admitted) [
  | inl e ↦ let both = rw (enforced, e) at h in (cc, e)
  | inr e ↦ absurd (ground arith)
]

-- Whatever the profile, a run is admitted only where the check of the pause's integrity wrote nothing,
-- the sentinel is cleanly absent and its absence is explained. Under the profile "release" the egress
-- boundary is verified besides, the audit's replication too, the bootstrap and the lock enforce hashes,
-- and the critic is of a named provider other than those of the worker and of the manager.
pub enforce_runtime_admission-IsReleasable :
    (s : Services) (r : Repository) (now : ℕ) (explicit : Option Text) (w w' : World)
    (d : AdmissionDecision)
    → enforce_runtime_admission s r now explicit w ≡ (w', admission d)
    → (d.profile ≡ get_harness_profile r.host explicit)
      × IsExplained s now w w'
      × (d.profile ≡ release → IsReleasable r now)
unfolding enforce_runtime_admission check_admission
enforce_runtime_admission-IsReleasable s r now explicit w w' d h =
    let (same, admits) = enforced_lem (check_admission s r now explicit w).1 d (ap (λ p. p.1) h) in
    let profile = ap (λ x. x.profile) (sym same) in
    let (estop, others) =
      blockers_for_lem (get_harness_profile r.host explicit)
        (estop_blockers (verify_pause_integrity s now w)) (release_blockers r now) admits in
    (
      profile,
      subst (IsExplained s now w) (ap (λ p. p.0) h) (estop-IsExplained s now w estop),
      λ e. release_blockers-IsReleasable r now (others (sym profile ∙ e)),
    )
