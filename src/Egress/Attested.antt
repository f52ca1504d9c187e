-- ===== src/Egress/Attested.antt =====
-- orchestrator/egress_policy.py: what a verified boundary means.
use agi_inspired.Prelude.{
  ℕ, ◌+◌, ◌*◌, ◌≤◌, ◌==◌, ◌&&◌, ◌⊎◌, Bool, length, All, Any, true, false, Option, none, some, List,
  [], ◌∷◌, all, ◌≡◌, ◌≢◌, refl, Bool-cases, Option-cases, arith, ap, inl, inr,
}
use agi_inspired.Prelude.Text.{Text, codes, text_eq, text_eq_sound, contains, strip, ends_with}
use agi_inspired.Pause.World.{Issued, no_time, at, hour}
use agi_inspired.Pause.Checks.{is_fresh}
use agi_inspired.Egress.Document.{Source, Python, Result, raised, ok, EgressPolicy}
use agi_inspired.Egress.Load.{load_policy, is_empty}
use agi_inspired.Egress.Boundary.{
  Attested, is_hex, is_sha256, claim_holds, find_claim, claims_hold, claims_complete, endpoint,
  equals, has_evidence, attestation_matches, verified, Host, judge_payload, judge_token, path_in,
  judge_policy, boundary_state,
}

-- A digit or one of the letters a to f.
abbrev pub IsHexDigit : ℕ → Type 0
IsHexDigit c = ((48 ≤ c) × (c ≤ 57)) ⊎ ((97 ≤ c) × (c ≤ 102))

-- A claim with a text: 64 hexadecimal digits where its name ends in "_sha256", and else not blank.
abbrev pub IsClaimed : List (Text × Option Text) → Text → Type 0
IsClaimed claims name =
    (v : Text) × (find_claim name claims ≡ some v)
    × (((ends_with name (codes "_sha256") ≡ true) × (length v ≡ 64) × All IsHexDigit v)
        ⊎ ((ends_with name (codes "_sha256") ≡ false) × (strip v ≢ [])))

-- What a payload attests of a policy at a time.
abbrev pub Attests : EgressPolicy → ℕ → Attested → Type 0
Attests policy now p =
    (p.purpose ≡ some policy.attestation_purpose)
    × (p.policy_sha256 ≡ some policy.digest)
    × ((issued : ℕ) × (p.issued_at ≡ at issued)
        × (issued ≤ now)
        × (now ≤ issued + policy.max_age_hours * hour))
    × (p.broker_endpoint ≡ some (endpoint policy))
    × ((present : List Text) × (p.evidence ≡ some present)
        × All (λ name. Any (λ e. e ≡ name) present) policy.required_evidence)
    × ((claims : List (Text × Option Text)) × (p.claims ≡ some claims)
        × All (IsClaimed claims) policy.required_claims)

-- A loop that found no element failing says of each element what its test means.
all-All :
    {A : Type 0} (f : A → Bool) (P : A → Type 0) (l : List A)
    → ((x : A) → f x ≡ true → P x)
    → all f l ≡ true
    → All P l
unfolding all
all-All f P [] g h = tt
all-All f P (x ∷ l) g h = (g x (ground arith), all-All f P l g (ground arith))

is_hex-IsHexDigit : (c : ℕ) → is_hex c ≡ true → IsHexDigit c
unfolding is_hex
is_hex-IsHexDigit c h = ground arith

is_empty_sound : (t : Text) → is_empty t ≡ false → t ≢ []
unfolding is_empty
is_empty_sound [] h = absurd cc
is_empty_sound (c ∷ t) h = λ e. cc

text-IsClaimed :
    (claims : List (Text × Option Text)) (name v : Text)
    → find_claim name claims ≡ some v
    → claim_holds name (some v) ≡ true
    → IsClaimed claims name
unfolding claim_holds is_sha256
text-IsClaimed claims name v e h = elim (Bool-cases (ends_with name (codes "_sha256"))) [
  | inl y ↦
      let both : length v == 64 && all is_hex v ≡ true = rw y at h in
      (v, e, inl (y, ground arith, all-All is_hex IsHexDigit v is_hex-IsHexDigit (ground arith)))
  | inr n ↦ (v, e, inr (n, is_empty_sound (strip v) (ground (arith, rw n at h))))
]

claim_holds-IsClaimed :
    (claims : List (Text × Option Text)) (name : Text) (o : Option Text)
    → find_claim name claims ≡ o
    → claim_holds name o ≡ true
    → IsClaimed claims name
claim_holds-IsClaimed claims name none e h = unfold claim_holds in absurd cc
claim_holds-IsClaimed claims name (some v) e h = text-IsClaimed claims name v e h

contains-Any : (l : List Text) (t : Text) → contains l t ≡ true → Any (λ e. e ≡ t) l
unfolding contains
contains-Any [] t h = absurd cc
contains-Any (u ∷ l) t h = elim (Bool-cases (text_eq u t)) [
  | inl y ↦ inl (text_eq_sound u t y)
  | inr n ↦ inr (contains-Any l t (ground arith))
]

equals_sound : (expected : Text) (o : Option Text) → equals expected o ≡ true → o ≡ some expected
unfolding equals
equals_sound expected none h = cc
equals_sound expected (some v) h = ap some (text_eq_sound v expected h)

fresh_sound :
    (now : ℕ) (i : Issued) (limit : ℕ)
    → is_fresh now i limit ≡ true
    → ((issued : ℕ) × (i ≡ at issued) × (issued ≤ now) × (now ≤ issued + limit))
unfolding is_fresh
fresh_sound now no_time limit h = cc
fresh_sound now (at issued) limit h = (issued, refl, ground arith, ground arith)

evidence_sound :
    (required : List Text) (o : Option (List Text))
    → has_evidence required o ≡ true
    → ((present : List Text) × (o ≡ some present)
        × All (λ name. Any (λ e. e ≡ name) present) required)
unfolding has_evidence
evidence_sound required none h = cc
evidence_sound required (some l) h = (l, refl, all-All (contains l) _ required (contains-Any l) h)

claims_sound :
    (names : List Text) (o : Option (List (Text × Option Text)))
    → claims_hold names o ≡ true
    → ((l : List (Text × Option Text)) × (o ≡ some l) × All (IsClaimed l) names)
unfolding claims_hold
claims_sound names none h = cc
claims_sound names (some l) h =
    (l, refl, all-All _ _ names (λ name e. claim_holds-IsClaimed l name _ refl e) h)

matches-Attests :
    (policy : EgressPolicy) (now : ℕ) (p : Attested)
    → attestation_matches policy now p ≡ true
    → Attests policy now p
unfolding attestation_matches claims_complete
matches-Attests policy now p h = (
  equals_sound _ _ (ground arith),
  equals_sound _ _ (ground arith),
  fresh_sound now _ _ (ground arith),
  equals_sound _ _ (ground arith),
  evidence_sound _ _ (ground arith),
  claims_sound _ _ (ground arith),
)

judge_payload_lem :
    (policy q : EgressPolicy) (now : ℕ) (o : Option Attested)
    → judge_payload policy now o ≡ verified q
    → ((p : Attested) × (o ≡ some p) × (policy ≡ q) × Attests policy now p)
unfolding judge_payload
judge_payload_lem policy q now none h = cc
judge_payload_lem policy q now (some p) h = elim (Bool-cases (attestation_matches policy now p)) [
  | inl e ↦ (p, refl, ground arith, matches-Attests policy now p e)
  | inr e ↦ absurd (ground arith)
]

judge_token_lem :
    (h : Host) (policy q : EgressPolicy) (now : ℕ) (o : Option Text)
    → judge_token h policy now o ≡ verified q
    → ((t : Text) × (verify : Text → Option Attested) × (p : Attested) × (o ≡ some t)
        × (h.verifier ≡ some verify)
        × (verify (strip t) ≡ some p)
        × (policy ≡ q)
        × Attests policy now p)
unfolding judge_token
judge_token_lem h policy q now none e = cc
judge_token_lem h policy q now (some t) e = elim (Option-cases h.verifier) [
  | inl n ↦ absurd (ground arith)
  | inr (verify, n) ↦
      let (p, ep, same, att) = judge_payload_lem policy q now (verify (strip t)) (ground arith) in
      (t, verify, p, refl, n, ep, same, att)
]

judge_policy_lem :
    (h : Host) (now : ℕ) (policy : EgressPolicy) (r : Result EgressPolicy)
    → judge_policy h now r ≡ verified policy
    → (r ≡ ok policy)
      × (path_in h policy.attestation_env ≢ [])
      × ((t : Text) × (verify : Text → Option Attested) × (p : Attested) × (h.read
              (path_in h policy.attestation_env)
            ≡ some t)
          × (h.verifier ≡ some verify)
          × (verify (strip t) ≡ some p)
          × Attests policy now p)
unfolding judge_policy
judge_policy_lem h now policy (raised e) c = cc
judge_policy_lem h now policy (ok q) c =
    elim (Bool-cases (is_empty (path_in h q.attestation_env))) [
      | inl e ↦ absurd (ground arith)
      | inr e ↦
          let (t, verify, p, r, v, a, same, att) =
            judge_token_lem h q policy now _ (ground arith) in
          rw⁻¹ same (refl, is_empty_sound _ e, (t, verify, p, r, v, a, att))
    ]

-- A boundary counts as verified under a policy only if that policy is what the file holds, the
-- environment names an attestation by a text that is not blank, it can be read, the verifier accepts it,
-- and the payload attests this policy: its purpose, digest and endpoint, an age within the limit, each
-- required evidence, and each required claim with a text that is not blank, or that is 64
-- hexadecimal digits where the claim is a digest.
pub boundary_state_verified :
    (py : Python) (source : Source) (h : Host) (now : ℕ) (policy : EgressPolicy)
    → boundary_state py source h now ≡ verified policy
    → (load_policy py source ≡ ok policy)
      × (path_in h policy.attestation_env ≢ [])
      × ((t : Text) × (verify : Text → Option Attested) × (p : Attested) × (h.read
              (path_in h policy.attestation_env)
            ≡ some t)
          × (h.verifier ≡ some verify)
          × (verify (strip t) ≡ some p)
          × Attests policy now p)
unfolding boundary_state
boundary_state_verified py source h now policy e =
    judge_policy_lem h now policy (load_policy py source) e
