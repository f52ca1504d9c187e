-- ===== src/Egress/Document.antt =====
-- orchestrator/egress_policy.py: the YAML document as `load_policy` reads it, and the errors.
use agi_inspired.Prelude.{ℕ, Bool, true, false, Option, List}
use agi_inspired.Prelude.Text.{Text}

-- A value of the document: a text, or a value of another type, known by a number.
pub data Scalar : Type 0 where
  text : Text → Scalar
  other : ℕ → Scalar

-- `dict.get`: no key, a value that is no list, or a list.
pub data Field : Type 0 where
  missing : Field
  scalar : Scalar → Field
  items : List Scalar → Field

pub record Broker : Type 0 where
  pub host : Field
  pub port : Field
  pub connect_port : Field
  pub idle_timeout_seconds : Field
  pub max_connection_bytes : Field
  pub allowed_hosts : Field

pub record Attestation : Type 0 where
  pub environment_variable : Field
  pub purpose : Field
  pub max_age_hours : Field
  pub required_evidence : Field
  pub required_claims : Field

-- A section is `none` where it is not a mapping; `version_is_one` and `broker_required` are the
-- comparisons with `1` and "broker_required".
pub record Document : Type 0 where
  pub version_is_one : Bool
  pub broker_required : Bool
  pub broker : Option Broker
  pub attestation : Option Attestation
  pub audit_log_environment_variable : Field

-- The file: not readable or no YAML, YAML that is no mapping, or a document.
pub data Source : Type 0 where
  unavailable not_a_mapping : Source
  document : Document → Source

-- The results of `int`.
pub data Number : Type 0 where
  negative : Number
  natural : ℕ → Number

-- What is used of Python and its libraries: `int` (`none` where it raises), `str` of a value that is no
-- text and of a list, the truth value of a value that is no text, the IDNA encoding (`none` where it
-- raises) and SHA-256 over the document's canonical JSON.
pub record Python : Type 0 where
  pub int : Scalar → Option Number
  pub str : ℕ → Text
  pub str_list : List Scalar → Text
  pub is_true : ℕ → Bool
  pub idna : Text → Option Text
  pub sha256 : Document → Text

-- The reasons with which an `EgressPolicyError` is raised.
pub data EgressPolicyError : Type 0 where
  policy_unavailable invalid_policy_schema broker_mode_required invalid_policy_sections :
      EgressPolicyError
  broker_must_bind_loopback invalid_policy_numbers unsafe_policy_numbers : EgressPolicyError
  allowlist_required invalid_host invalid_attestation_evidence : EgressPolicyError
  invalid_attestation_claims invalid_attestation_configuration : EgressPolicyError
  host_not_allowlisted port_not_allowed dns_resolution_failed invalid_dns_answer : EgressPolicyError
  non_global_destination dns_resolution_empty boundary_unverified : EgressPolicyError

pub data Result {ℓ} (A : Type ℓ) : Type ℓ where
  raised : EgressPolicyError → Result A
  ok : A → Result A

unfoldable pub and_then {ℓ ℓ'} : {A : Type ℓ} → {B : Type ℓ'} → Result A → (A → Result B) → Result B
and_then (raised e) f = raised e
and_then (ok a) f = f a

-- `if test: raise e`
unfoldable pub refuse_if {ℓ} : {A : Type ℓ} → Bool → EgressPolicyError → Result A → Result A
refuse_if true e r = raised e
refuse_if false e r = r

-- `EgressPolicy`
pub record EgressPolicy : Type 0 where
  pub host : Text
  pub port : ℕ
  pub connect_port : ℕ
  pub idle_timeout_seconds : ℕ
  pub max_connection_bytes : ℕ
  pub allowed_hosts : List Text
  pub attestation_env : Text
  pub attestation_purpose : Text
  pub max_age_hours : ℕ
  pub required_evidence : List Text
  pub required_claims : List Text
  pub audit_log_env : Text
  pub digest : Text
