-- ===== src/Egress/Safe.antt =====
-- orchestrator/egress_policy.py: what holds of every policy that `load_policy` accepts.
use agi_inspired.Prelude.{
  ◌≤◌, Bool, true, false, not, Option, none, some, List, [], ◌∷◌, All, if◌then◌else◌, ◌≡◌, ◌≢◌,
  refl, Bool-cases, Option-cases, arith, sym, inl, inr, subst,
}
use agi_inspired.Prelude.Text.{Text, text_eq, text_eq_sound, lower}
use agi_inspired.Egress.Document.{
  Scalar, Field, missing, scalar, items, Broker, Attestation, Document, Source, unavailable,
  not_a_mapping, document, Python, EgressPolicyError, invalid_host, Result, raised, ok, and_then,
  refuse_if, EgressPolicy,
}
use agi_inspired.Egress.Load.{
  parts_filled, checked_host, normal_host, str_of, normal_hosts, hosts_of, loopback, Numbers,
  numbers_safe, made_policy, nameless, is_empty, load_sections, load_document, load_policy, name_of,
}

-- A host in the form that the allowlist is compared in: lower case of an IDNA form, with no empty part.
abbrev pub IsNormal : Python → Text → Type 0
IsNormal py h =
    (parts_filled true h ≡ true)
    × ((raw : Text) × (u : Text) × (py.idna raw ≡ some u) × (h ≡ lower u))

pub and_then-ok {ℓ ℓ'} :
    {A : Type ℓ}
    → {B : Type ℓ'} → (r : Result A) (f : A → Result B) (b : B) → and_then r f ≡ ok b
    → ((a : A) × (r ≡ ok a) × (f a ≡ ok b))
unfolding and_then
and_then-ok (raised e) f b h = cc
and_then-ok (ok a) f b h = (a, refl, h)

pub after_and_then {ℓ ℓ' ℓ''} :
    {A : Type ℓ}
    → {B : Type ℓ'} → {P : Type ℓ''} → (r : Result A) (f : A → Result B) (b : B)
    → and_then r f ≡ ok b
    → ((a : A) → r ≡ ok a → f a ≡ ok b → P)
    → P
unfolding and_then
after_and_then (raised e) f b h k = absurd (cc h)
after_and_then (ok a) f b h k = k a refl h

pub refuse_if-ok {ℓ} :
    {A : Type ℓ}
    → (t : Bool) (e : EgressPolicyError) (r : Result A) (a : A) → refuse_if t e r ≡ ok a
    → (t ≡ false) × (r ≡ ok a)
unfolding refuse_if
refuse_if-ok true e r a h = cc
refuse_if-ok false e r a h = (refl, h)

pub ok-injective {ℓ} : {A : Type ℓ} → {a b : A} → ok a ≡ ok b → a ≡ b
ok-injective h = cc

module _ (py : Python) where
  checked_host_lem :
      (raw : Text) (o : Option Text) (h : Text)
      → py.idna raw ≡ o
      → checked_host py o ≡ ok h
      → IsNormal py h
  unfolding checked_host
  checked_host_lem raw none h e c = cc
  checked_host_lem raw (some u) h e c = elim (Bool-cases (parts_filled true (lower u))) [
    | inl f ↦
        let same =
          ok-injective
            (subst (λ b. (if b then ok (lower u) else raised invalid_host) ≡ ok h) f c) in
        (rw⁻¹ same f, (raw, u, e, sym same))
    | inr f ↦ absurd (ground arith)
  ]

  pub normal_host-IsNormal : (raw h : Text) → normal_host py raw ≡ ok h → IsNormal py h
  unfolding normal_host
  normal_host-IsNormal raw h e = checked_host_lem _ _ h refl e

  normal_hosts-All :
      (l : List Scalar) (hs : List Text) → normal_hosts py l ≡ ok hs → All (IsNormal py) hs
  unfolding normal_hosts
  normal_hosts-All [] hs e = rw⁻¹ (ok-injective e) tt
  normal_hosts-All (s ∷ l) hs e =
      let (n, en, e1) = and_then-ok (normal_host py (str_of py s)) _ hs e in
      let (ns, ens, e2) = and_then-ok (normal_hosts py l) _ hs e1 in
      rw⁻¹ (ok-injective e2) (normal_host-IsNormal (str_of py s) n en, normal_hosts-All l ns ens)

  normal_hosts-some :
      (s : Scalar) (l : List Scalar) (hs : List Text) → normal_hosts py (s ∷ l) ≡ ok hs → hs ≢ []
  unfolding normal_hosts
  normal_hosts-some s l hs e =
      let (n, en, e1) = and_then-ok (normal_host py (str_of py s)) _ hs e in
      let (ns, ens, e2) = and_then-ok (normal_hosts py l) _ hs e1 in
      rw⁻¹ (ok-injective e2) (λ c. cc)

  hosts_of-All :
      (f : Field) (hs : List Text) → hosts_of py f ≡ ok hs → All (IsNormal py) hs × (hs ≢ [])
  unfolding hosts_of
  hosts_of-All missing hs e = cc
  hosts_of-All (scalar s) hs e = cc
  hosts_of-All (items []) hs e = cc
  hosts_of-All (items (s ∷ l)) hs e = (normal_hosts-All (s ∷ l) hs e, normal_hosts-some s l hs e)

  abbrev pub IsSafe : EgressPolicy → Type 0
  IsSafe p =
      (p.host ≡ loopback)
      × ((1 ≤ p.port) × (p.port ≤ 65_535))
      × (p.connect_port ≡ 443)
      × (1 ≤ p.max_age_hours)
      × ((1 ≤ p.idle_timeout_seconds) × (p.idle_timeout_seconds ≤ 300))
      × ((1024 ≤ p.max_connection_bytes) × (p.max_connection_bytes ≤ 104_857_600))
      × (All (IsNormal py) p.allowed_hosts × (p.allowed_hosts ≢ []))
      × ((p.attestation_env ≢ []) × (p.attestation_purpose ≢ []) × (p.audit_log_env ≢ []))

  numbers_safe_lem :
      (n : Numbers)
      → numbers_safe n ≡ true
      → ((1 ≤ n.port) × (n.port ≤ 65_535))
        × (n.connect_port ≡ 443)
        × (1 ≤ n.max_age)
        × ((1 ≤ n.idle_timeout) × (n.idle_timeout ≤ 300))
        × ((1024 ≤ n.max_connection_bytes) × (n.max_connection_bytes ≤ 104_857_600))
  unfolding numbers_safe
  numbers_safe_lem n h = ground arith

  not_empty : (t : Text) → is_empty t ≡ false → t ≢ []
  unfolding is_empty
  not_empty [] h = λ e. cc
  not_empty (c ∷ t) h = λ e. cc

  made_policy-IsSafe :
      (d : Document) (b : Broker) (a : Attestation) (n : Numbers)
      → (allowed evidence claims : List Text) (p : EgressPolicy)
      → not (text_eq (name_of py b.host) loopback) ≡ false
      → not (numbers_safe n) ≡ false
      → hosts_of py b.allowed_hosts ≡ ok allowed
      → (nameless (made_policy py d b a n allowed evidence claims) ≡ false)
        × (ok (made_policy py d b a n allowed evidence claims) ≡ ok p)
      → IsSafe p
  unfolding made_policy nameless
  made_policy-IsSafe d b a n allowed evidence claims p eh en ea (filled, made) =
      let (port, cport, age, idle, bytes) = numbers_safe_lem n (ground arith) in
      rw⁻¹ (ok-injective made) (
        text_eq_sound _ _ (ground arith),
        port,
        cport,
        age,
        idle,
        bytes,
        hosts_of-All b.allowed_hosts allowed ea,
        (not_empty _ (ground arith), not_empty _ (ground arith), not_empty _ (ground arith)),
      )

  load_sections_lem :
      (d : Document) (b : Broker) (a : Attestation) (p : EgressPolicy)
      → load_sections py d b a ≡ ok p
      → IsSafe p
  unfolding load_sections
  load_sections_lem d b a p h =
      let (eh, h1) = refuse_if-ok _ _ _ p h in
      after_and_then _ _ p h1 (λ n _ h2.
        let (en, h3) = refuse_if-ok _ _ _ p h2 in
        after_and_then _ _ p h3 (λ allowed ea h4. after_and_then _ _ p h4 (λ evidence _ h5.
          after_and_then _ _ p h5 (λ claims _ h6.
            made_policy-IsSafe d b a n allowed evidence claims p eh en ea
              (refuse_if-ok _ _ _ p h6)))))

  load_document_lem : (d : Document) (p : EgressPolicy) → load_document py d ≡ ok p → IsSafe p
  unfolding load_document
  load_document_lem d p h =
      let (version, h1) = refuse_if-ok _ _ _ p h in
      let (mode, h2) = refuse_if-ok _ _ _ p h1 in
      elim (Option-cases d.broker) [
        | inl e ↦ absurd (ground arith)
        | inr (b, e) ↦ elim (Option-cases d.attestation) [
          | inl f ↦ absurd (ground arith)
          | inr (a, f) ↦ load_sections_lem d b a p (ground arith)
        ]
      ]

  -- Whatever document `load_policy` accepts, its policy binds the broker to the loopback address,
  -- permits port 443 only, keeps the limits of the code, and has an allowlist that is not empty and
  -- whose hosts are in normal form.
  pub load_policy-IsSafe :
      (source : Source) (p : EgressPolicy) → load_policy py source ≡ ok p → IsSafe p
  unfolding load_policy
  load_policy-IsSafe unavailable p h = cc
  load_policy-IsSafe not_a_mapping p h = cc
  load_policy-IsSafe (document d) p h = load_document_lem d p h
