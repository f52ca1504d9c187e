-- ===== src/Egress/Load.antt =====
-- orchestrator/egress_policy.py: `_normal_host` and `load_policy`.
use agi_inspired.Prelude.{
  ℕ, Bool, true, false, not, ◌&&◌, ◌||◌, Option, none, some, List, [], ◌∷◌, leb, ◌==◌,
  if◌then◌else◌,
}
use agi_inspired.Prelude.Text.{Text, codes, text_eq, strip, lower}
use agi_inspired.Egress.Document.{
  Scalar, text, other, Field, missing, scalar, items, Broker, Attestation, Document, Source,
  unavailable, not_a_mapping, document, Number, natural, Python, EgressPolicyError,
  policy_unavailable, invalid_policy_schema, broker_mode_required, invalid_policy_sections,
  broker_must_bind_loopback, invalid_policy_numbers, unsafe_policy_numbers, allowlist_required,
  invalid_host, invalid_attestation_evidence, invalid_attestation_claims,
  invalid_attestation_configuration, Result, raised, ok, and_then, refuse_if, EgressPolicy,
}
use mathlib.Core.List.{reverse}

abbrev pub dot : ℕ
dot = 46

unfoldable pub drop_dots : Text → Text
drop_dots [] = []
drop_dots (c ∷ t) = let rest = drop_dots t in if c == dot then rest else c ∷ t

-- `value.rstrip(".")`
unfoldable pub rstrip_dots : Text → Text
rstrip_dots t = reverse (drop_dots (reverse t))

-- Whether no part of `value.split(".")` is empty, where `bare` says that the current part is.
unfoldable pub parts_filled : Bool → Text → Bool
parts_filled bare [] = not bare
parts_filled bare (c ∷ t) =
    if c == dot then not bare && parts_filled true t else parts_filled false t

module _ (py : Python) where
  unfoldable pub checked_host : Option Text → Result Text
  checked_host none = raised invalid_host
  checked_host (some h) = if parts_filled true (lower h) then ok (lower h) else raised invalid_host

  -- `_normal_host`
  unfoldable pub normal_host : Text → Result Text
  normal_host h = checked_host (py.idna (rstrip_dots (strip h)))

  unfoldable pub str_of : Scalar → Text
  str_of (text t) = t
  str_of (other n) = py.str n

  -- `str(mapping.get(key) or "")`
  unfoldable pub name_of : Field → Text
  name_of missing = []
  name_of (scalar (text t)) = t
  name_of (scalar (other n)) = if py.is_true n then py.str n else []
  name_of (items []) = []
  name_of (items (s ∷ l)) = py.str_list (s ∷ l)

  -- `int(mapping.get(key))`
  unfoldable pub int_of : Field → Option Number
  int_of missing = none
  int_of (scalar s) = py.int s
  int_of (items l) = none

  -- The generator over the raw hosts, which stops at the first that is refused.
  unfoldable pub normal_hosts : List Scalar → Result (List Text)
  unfolding and_then str_of
  normal_hosts [] = ok []
  normal_hosts (h ∷ hs) =
      let rest = normal_hosts hs in
      and_then (normal_host (str_of h)) (λ n. and_then rest (λ ns. ok (n ∷ ns)))

  unfoldable pub hosts_of : Field → Result (List Text)
  hosts_of missing = raised allowlist_required
  hosts_of (scalar s) = raised allowlist_required
  hosts_of (items []) = raised allowlist_required
  hosts_of (items (h ∷ hs)) = normal_hosts (h ∷ hs)

-- `isinstance(value, list) and all(isinstance(item, str) ...)`
unfoldable pub text_items : List Scalar → Option (List Text)
text_items [] = some []
text_items (text t ∷ l) = elim (text_items l) [ none ↦ none | some ts ↦ some (t ∷ ts) ]
text_items (other n ∷ l) = none

unfoldable pub texts_of : EgressPolicyError → Field → Result (List Text)
unfolding text_items
texts_of e missing = raised e
texts_of e (scalar s) = raised e
texts_of e (items l) = elim (text_items l) [ none ↦ raised e | some ts ↦ ok ts ]

abbrev pub loopback : Text
loopback = codes "127.0.0.1"

pub record Numbers : Type 0 where
  pub port : ℕ
  pub connect_port : ℕ
  pub idle_timeout : ℕ
  pub max_connection_bytes : ℕ
  pub max_age : ℕ

-- A negative number fails every test below, so that it is refused like an unsafe one.
unfoldable pub numbers :
    Option Number → Option Number → Option Number → Option Number → Option Number → Result Numbers
numbers (some (natural p)) (some (natural c)) (some (natural i)) (some (natural b))
      (some (natural a)) =
    ok (record {
      port = p;
      connect_port = c;
      idle_timeout = i;
      max_connection_bytes = b;
      max_age = a;
    })
numbers (some p) (some c) (some i) (some b) (some a) = raised unsafe_policy_numbers
numbers _ _ _ _ _ = raised invalid_policy_numbers

unfoldable pub numbers_safe : Numbers → Bool
numbers_safe n =
    leb 1 n.port
    && leb n.port 65_535
    && n.connect_port == 443
    && leb 1 n.max_age
    && leb 1 n.idle_timeout
    && leb n.idle_timeout 300
    && leb 1024 n.max_connection_bytes
    && leb n.max_connection_bytes 104_857_600

unfoldable pub is_empty : Text → Bool
is_empty [] = true
is_empty (c ∷ t) = false

unfoldable pub nameless : EgressPolicy → Bool
nameless p =
    is_empty p.attestation_env || is_empty p.attestation_purpose || is_empty p.audit_log_env

module _ (py : Python) where
  unfoldable pub read_numbers : Broker → Attestation → Result Numbers
  read_numbers b a =
      numbers (int_of py b.port) (int_of py b.connect_port) (int_of py b.idle_timeout_seconds)
        (int_of py b.max_connection_bytes) (int_of py a.max_age_hours)

  unfoldable pub made_policy :
      Document → Broker → Attestation → Numbers → List Text → List Text → List Text → EgressPolicy
  made_policy d b a n allowed evidence claims = record {
    host = name_of py b.host;
    port = n.port;
    connect_port = n.connect_port;
    idle_timeout_seconds = n.idle_timeout;
    max_connection_bytes = n.max_connection_bytes;
    allowed_hosts = allowed;
    attestation_env = name_of py a.environment_variable;
    attestation_purpose = name_of py a.purpose;
    max_age_hours = n.max_age;
    required_evidence = evidence;
    required_claims = claims;
    audit_log_env = name_of py d.audit_log_environment_variable;
    digest = py.sha256 d;
  }

  -- The checks on the two sections, in order.
  unfoldable pub load_sections : Document → Broker → Attestation → Result EgressPolicy
  load_sections d b a =
      refuse_if (not (text_eq (name_of py b.host) loopback)) broker_must_bind_loopback (
        and_then (read_numbers b a) (λ n. refuse_if (not (numbers_safe n)) unsafe_policy_numbers (
          and_then (hosts_of py b.allowed_hosts) (λ allowed.
            and_then (texts_of invalid_attestation_evidence a.required_evidence) (λ evidence.
              and_then (texts_of invalid_attestation_claims a.required_claims) (λ claims.
                let p = made_policy d b a n allowed evidence claims in
                refuse_if (nameless p) invalid_attestation_configuration (ok p)))))))

  unfoldable pub load_document : Document → Result EgressPolicy
  load_document d = refuse_if (not d.version_is_one) invalid_policy_schema (
      refuse_if (not d.broker_required) broker_mode_required (elim d.broker [
        | none ↦ raised invalid_policy_sections
        | some b ↦ elim d.attestation [
          | none ↦ raised invalid_policy_sections
          | some a ↦ load_sections d b a
        ]
      ]))

  -- `load_policy`
  unfoldable pub load_policy : Source → Result EgressPolicy
  load_policy unavailable = raised policy_unavailable
  load_policy not_a_mapping = raised invalid_policy_schema
  load_policy (document d) = load_document d
