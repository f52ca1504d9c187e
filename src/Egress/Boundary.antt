-- ===== src/Egress/Boundary.antt =====
-- orchestrator/egress_policy.py: `boundary_state`, the digest in force and the policy's snapshot.
use agi_inspired.Prelude.{
  ℕ, ◌*◌, Bool, false, not, ◌&&◌, ◌||◌, Option, none, some, List, [], ◌∷◌, ◌++◌, all, any, leb,
  ◌==◌, length, if◌then◌else◌,
}
use agi_inspired.Prelude.Text.{Text, codes, text_eq, strip, ends_with, contains, sort_texts}
use agi_inspired.Ledger.Rows.{show_number}
use agi_inspired.Pause.World.{Issued, hour}
use agi_inspired.Pause.Checks.{is_fresh}
use agi_inspired.Egress.Document.{
  Source, Python, EgressPolicyError, Result, raised, ok, EgressPolicy,
}
use agi_inspired.Egress.Load.{load_policy, is_empty, dot}

-- The verified payload's fields; one of the wrong type is `none`, and so is a claim that is no text.
pub record Attested : Type 0 where
  pub purpose : Option Text
  pub policy_sha256 : Option Text
  pub issued_at : Issued
  pub evidence : Option (List Text)
  pub broker_endpoint : Option Text
  pub claims : Option (List (Text × Option Text))

unfoldable pub find_claim : Text → List (Text × Option Text) → Option Text
unfolding text_eq
find_claim name [] = none
find_claim name ((k, v) ∷ l) = let rest = find_claim name l in if text_eq k name then v else rest

unfoldable pub is_hex : ℕ → Bool
is_hex c = (leb 48 c && leb c 57) || (leb 97 c && leb c 102)

-- The pattern `[0-9a-f]{64}`
unfoldable pub is_sha256 : Text → Bool
unfolding is_hex
is_sha256 t = length t == 64 && all is_hex t

unfoldable pub claim_holds : Text → Option Text → Bool
unfolding ends_with
claim_holds name none = false
claim_holds name (some v) =
    if ends_with name (codes "_sha256") then is_sha256 v else not (is_empty (strip v))

unfoldable pub claims_hold : List Text → Option (List (Text × Option Text)) → Bool
claims_hold names none = false
claims_hold names (some l) = all (λ name. claim_holds name (find_claim name l)) names

-- `_claims_complete`
unfoldable pub claims_complete : Attested → EgressPolicy → Bool
claims_complete p policy = claims_hold policy.required_claims p.claims

unfoldable pub endpoint : EgressPolicy → Text
endpoint p = p.host ++ codes ":" ++ show_number p.port

-- `value == expected` where `value` need not be a text.
unfoldable pub equals : Text → Option Text → Bool
equals expected none = false
equals expected (some v) = text_eq v expected

unfoldable pub has_evidence : List Text → Option (List Text) → Bool
unfolding contains
has_evidence required none = false
has_evidence required (some present) = all (contains present) required

-- The conjunction at the end of `boundary_state`; times are in microseconds.
unfoldable pub attestation_matches : EgressPolicy → ℕ → Attested → Bool
attestation_matches policy now p =
    equals policy.attestation_purpose p.purpose
    && equals policy.digest p.policy_sha256
    && is_fresh now p.issued_at (policy.max_age_hours * hour)
    && equals (endpoint policy) p.broker_endpoint
    && has_evidence policy.required_evidence p.evidence
    && claims_complete p policy

pub data BoundaryError : Type 0 where
  policy_refused : EgressPolicyError → BoundaryError
  attestation_missing attestation_unreadable operator_verifier_unavailable : BoundaryError
  attestation_untrusted attestation_mismatch : BoundaryError

-- The result of `boundary_state`: the policy that is in force, or the error. The payload's fields that
-- it repeats for the reader are left out.
pub data State : Type 0 where
  verified : EgressPolicy → State
  unverified : BoundaryError → State

-- What is read beside the policy: the environment's variables, and the text of the file with a path
-- (`none` for an `OSError`). The verifier is `none` where it cannot be imported.
pub record Host : Type 0 where
  pub variable : Text → Option Text
  pub read : Text → Option Text
  pub verifier : Option (Text → Option Attested)

unfoldable pub judge_payload : EgressPolicy → ℕ → Option Attested → State
judge_payload policy now none = unverified attestation_untrusted
judge_payload policy now (some p) =
    if attestation_matches policy now p then verified policy else unverified attestation_mismatch

unfoldable pub judge_token : Host → EgressPolicy → ℕ → Option Text → State
judge_token h policy now none = unverified attestation_unreadable
judge_token h policy now (some t) = elim h.verifier [
  | none ↦ unverified operator_verifier_unavailable
  | some verify ↦ judge_payload policy now (verify (strip t))
]

-- `str(env.get(name) or "").strip()`
unfoldable pub path_in : Host → Text → Text
path_in h name = elim (h.variable name) [ none ↦ [] | some t ↦ strip t ]

unfoldable pub judge_policy : Host → ℕ → Result EgressPolicy → State
judge_policy h now (raised e) = unverified (policy_refused e)
judge_policy h now (ok policy) =
    let path = path_in h policy.attestation_env in
    if is_empty path then unverified attestation_missing else judge_token h policy now (h.read path)

unfoldable pub boundary_state : Python → Source → Host → ℕ → State
boundary_state py source h now = judge_policy h now (load_policy py source)

-- The digest that a payload carries, where it is not empty.
unfoldable pub digest_of : Option Text → Option Text
digest_of none = none
digest_of (some []) = none
digest_of (some (c ∷ t)) = some (c ∷ t)

-- Whether `token.split(".")` has a second part, and its first part.
unfoldable pub has_dot : Text → Bool
has_dot = any (λ c. c == dot)

unfoldable pub first_part : Text → Text
first_part [] = []
first_part (c ∷ t) = let rest = first_part t in if c == dot then [] else c ∷ rest

unfoldable pub signed_digest : Option (Text → Option Attested) → Text → Option Text
unfolding digest_of
signed_digest none token = none
signed_digest (some verify) token = elim (verify token) [
  | none ↦ none
  | some p ↦ digest_of p.policy_sha256
]

unfoldable pub claimed_digest : (Text → Option Text) → Text → Option Text
unfolding has_dot first_part digest_of
claimed_digest decode token = if has_dot token then digest_of (decode (first_part token)) else none

-- The digest in a token: the signed one where the token verifies, and else the one that its first part
-- holds. `decode` is Base64 and JSON, `none` where either raises or there is no digest.
unfoldable pub token_digest :
    (Text → Option Text) → Option (Text → Option Attested) → Text → Option Text
token_digest decode verifier token = elim (signed_digest verifier token) [
  | some d ↦ some d
  | none ↦ claimed_digest decode token
]

-- `get_attestation_policy_digest`; `fallback` is the path taken without the variable, and `read` is
-- also `none` where the path is no file.
unfoldable pub get_attestation_policy_digest : (Text → Option Text) → Host → Text → Option Text
get_attestation_policy_digest decode h fallback =
    let raw = path_in h (codes "HARNESS_EGRESS_ATTESTATION") in
    elim (h.read (if is_empty raw then fallback else raw)) [
      | none ↦ none
      | some t ↦ token_digest decode h.verifier (strip t)
    ]

pub record Snapshot : Type 0 where
  pub policy_digest : Option Text
  pub allowlisted_hosts : List Text

unfoldable pub snapshot_of : Option Text → Result EgressPolicy → Snapshot
snapshot_of attested (raised e) = record { policy_digest = attested; allowlisted_hosts = [] }
snapshot_of none (ok p) = record {
  policy_digest = some p.digest;
  allowlisted_hosts = sort_texts p.allowed_hosts;
}
snapshot_of (some d) (ok p) = record {
  policy_digest = some d;
  allowlisted_hosts = sort_texts p.allowed_hosts;
}

-- `snapshot_egress_policy`
unfoldable pub snapshot_egress_policy :
    Python → Source → (Text → Option Text) → Host → Text → Snapshot
snapshot_egress_policy py source decode h fallback =
    snapshot_of (get_attestation_policy_digest decode h fallback) (load_policy py source)
