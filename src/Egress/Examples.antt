-- ===== src/Egress/Examples.antt =====
-- orchestrator/egress_policy.py: its functions on a small document and an attestation for it.
use agi_inspired.Prelude.{
  ℕ, Bool, true, false, Option, none, some, List, [], ◌∷◌, ◌≡◌, ◌≢◌, refl, All, all, ap, ◌∙◌,
}
use agi_inspired.Prelude.Text.{Text, codes, text_eq, contains, strip, lower, ends_with}
use agi_inspired.Ledger.Rows.{show_number}
use agi_inspired.Pause.World.{at}
use agi_inspired.Pause.Checks.{is_fresh}
use agi_inspired.Egress.Document.{
  text, other, Field, scalar, items, Source, document, natural, Python, ok, and_then, refuse_if,
  EgressPolicy,
}
use agi_inspired.Egress.Load.{
  is_empty, loopback, load_policy, load_document, load_sections, made_policy, read_numbers, int_of,
  numbers, numbers_safe, hosts_of, normal_hosts, normal_host, checked_host, parts_filled,
  rstrip_dots, drop_dots, str_of, name_of, texts_of, text_items, nameless,
}
use agi_inspired.Egress.Boundary.{
  Attested, find_claim, claim_holds, attestation_matches, claims_complete, claims_hold, equals,
  has_evidence, endpoint, verified, Host, judge_payload, judge_token, path_in, judge_policy,
  boundary_state,
}
use agi_inspired.Egress.Worker.{
  Environment, worker_environment, worker_under, child_environment, Parsed, address, collect,
  some_address, answers, authorize_destination,
}
use agi_inspired.Egress.Safe.{IsSafe, load_policy-IsSafe}
use agi_inspired.Egress.Attested.{Attests, boundary_state_verified}
use agi_inspired.Egress.Destinations.{authorize_destination_lem}

abbrev pub python : Python
python = record {
  int = λ s. elim s [ text t ↦ none | other n ↦ some (natural n) ];
  str = λ n. [];
  str_list = λ l. [];
  is_true = λ n. true;
  idna = λ t. some t;
  sha256 = λ d. codes "d0";
}

abbrev number : ℕ → Field
number n = scalar (other n)

abbrev name : Text → Field
name t = scalar (text t)

abbrev pub source : Source
source = document (record {
  version_is_one = true;
  broker_required = true;
  broker = some (record {
    host = name loopback;
    port = number 3128;
    connect_port = number 443;
    idle_timeout_seconds = number 60;
    max_connection_bytes = number 4096;
    allowed_hosts = items (text (codes "A.org.") ∷ []);
  });
  attestation = some (record {
    environment_variable = name (codes "ATT");
    purpose = name (codes "egress");
    max_age_hours = number 24;
    required_evidence = items (text (codes "firewall") ∷ []);
    required_claims = items (text (codes "by") ∷ []);
  });
  audit_log_environment_variable = name (codes "LOG");
})

abbrev pub policy : EgressPolicy
policy = record {
  host = loopback;
  port = 3128;
  connect_port = 443;
  idle_timeout_seconds = 60;
  max_connection_bytes = 4096;
  allowed_hosts = codes "a.org" ∷ [];
  attestation_env = codes "ATT";
  attestation_purpose = codes "egress";
  max_age_hours = 24;
  required_evidence = codes "firewall" ∷ [];
  required_claims = codes "by" ∷ [];
  audit_log_env = codes "LOG";
  digest = codes "d0";
}

loads : load_policy python source ≡ ok policy
unfolding load_policy load_document load_sections made_policy read_numbers int_of numbers
    numbers_safe hosts_of normal_hosts normal_host checked_host parts_filled rstrip_dots drop_dots
    str_of name_of texts_of text_items nameless is_empty and_then refuse_if text_eq strip lower
loads = refl

load_policy-IsSafe_example : IsSafe python policy
load_policy-IsSafe_example = load_policy-IsSafe python source policy loads

abbrev payload : Attested
payload = record {
  purpose = some (codes "egress");
  policy_sha256 = some (codes "d0");
  issued_at = at 5;
  evidence = some (codes "firewall" ∷ []);
  broker_endpoint = some (codes "127.0.0.1:3128");
  claims = some ((codes "by", some (codes "op")) ∷ []);
}

-- Both variables name one file, whose token verifies if `genuine`.
abbrev pub host : Bool → Host
host genuine = record {
  variable = λ n. some (codes "f");
  read = λ path. some (codes "x.y");
  verifier = some (λ t. elim genuine [ true ↦ some payload | false ↦ none ]);
}

judged : judge_policy (host true) 7 (ok policy) ≡ verified policy
unfolding judge_policy judge_token judge_payload attestation_matches claim_holds claims_complete
    claims_hold endpoint equals find_claim has_evidence path_in is_empty show_number is_fresh
    contains ends_with strip text_eq all
judged = refl

pub verifies : boundary_state python source (host true) 7 ≡ verified policy
unfolding boundary_state
verifies = ap (judge_policy (host true) 7) loads ∙ judged

boundary_state_verified_example :
    (load_policy python source ≡ ok policy)
    × (path_in (host true) policy.attestation_env ≢ [])
    × ((t : Text) × (verify : Text → Option Attested) × (p : Attested) × ((host true).read
            (path_in (host true) policy.attestation_env)
          ≡ some t)
        × ((host true).verifier ≡ some verify)
        × (verify (strip t) ≡ some p)
        × Attests policy 7 p)
boundary_state_verified_example =
    boundary_state_verified python source (host true) 7 policy verifies

abbrev parse : Text → Parsed
parse t = address true

abbrev resolve : Text → ℕ → Option (List Text)
resolve n port = some (codes "9.9.9.9" ∷ codes "9.9.9.9" ∷ [])

authorized :
    authorize_destination parse python resolve (codes "a.org") 443 policy
    ≡ ok (codes "a.org", codes "9.9.9.9" ∷ [])
unfolding authorize_destination answers some_address collect normal_host checked_host parts_filled
    rstrip_dots drop_dots strip lower contains text_eq and_then refuse_if
authorized = refl

authorize_destination_lem_example :
    (normal_host python (codes "a.org") ≡ ok (codes "a.org"))
    × (contains policy.allowed_hosts (codes "a.org") ≡ true)
    × (443 ≡ policy.connect_port)
    × ((codes "9.9.9.9" ∷ []) ≢ [])
    × ((l : List Text) × (resolve (codes "a.org") 443 ≡ some l)
        × All (λ a. parse a ≡ address true) l
        × ((a : Text) → contains (codes "9.9.9.9" ∷ []) a ≡ contains l a))
authorize_destination_lem_example =
    authorize_destination_lem parse python resolve (codes "a.org") 443 policy (codes "a.org")
      (codes "9.9.9.9" ∷ []) authorized

abbrev nothing_set : Environment
nothing_set k = none

made :
    worker_environment python source source (host true) 7 nothing_set
    ≡ ok (child_environment nothing_set policy)
unfolding worker_environment worker_under and_then
made =
    ap (worker_under python source nothing_set) verifies
    ∙ ap (λ r. and_then r (λ q. ok (child_environment nothing_set q))) loads
