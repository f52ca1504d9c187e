-- ===== src/Egress/Destinations.antt =====
-- orchestrator/egress_policy.py: which destinations are permitted, and what a worker's environment has.
use agi_inspired.Prelude.{
  ℕ, Bool, true, false, ◌||◌, Option, none, some, List, [], ◌∷◌, ◌++◌, All, ◌≡◌, ◌≢◌, refl,
  Bool-cases, arith, ap, ◌∙◌, inl, inr, if◌then◌else◌, subst,
}
use agi_inspired.Prelude.Text.{Text, codes, text_eq, text_eq_sound, contains}
use agi_inspired.Egress.Document.{Source, Python, ok, EgressPolicy}
use agi_inspired.Egress.Load.{load_policy, normal_host}
use agi_inspired.Egress.Boundary.{endpoint, State, verified, unverified, Host, boundary_state}
use agi_inspired.Egress.Worker.{
  proxy_settings, worker_under, Environment, proxy_names, without, update, child_environment,
  worker_environment, Parsed, address, collect, some_address, answers, authorize_destination,
}
use agi_inspired.Egress.Safe.{
  refuse_if-ok, after_and_then, ok-injective, IsSafe, load_policy-IsSafe,
}

or_assoc : (a b c : Bool) → ((a || b) || c) ≡ (a || (b || c))
or_assoc a b c = ground arith

or_false : (a : Bool) → a ≡ (a || false)
or_false a = ground arith

some_address_lem :
    (n m : Text) (l out : List Text)
    → some_address n l ≡ ok (m, out)
    → (n ≡ m) × (l ≡ out) × (out ≢ [])
unfolding some_address
some_address_lem n m [] out h = cc
some_address_lem n m (a ∷ l) out h =
    let e = ok-injective h in (ap (λ p. p.0) e, ap (λ p. p.1) e, rw⁻¹ (ap (λ p. p.1) e) (λ c. cc))

module _ (parse : Text → Parsed) where
  -- `out` has exactly the addresses of `found` and `l`, and those of `l` are global.
  abbrev Collected : List Text → List Text → List Text → Type 0
  Collected found l out =
      All (λ a. parse a ≡ address true) l
      × ((a : Text) → contains out a ≡ (contains found a || contains l a))

  contains_snoc :
      (l : List Text) (u a : Text) → contains (l ++ (u ∷ [])) a ≡ (contains l a || text_eq u a)
  unfolding contains
  contains_snoc [] u a = ground arith
  contains_snoc (v ∷ l) u a = ground (arith, contains_snoc l u a)

  add_found :
      (found : List Text) (u a : Text)
      → contains (if contains found u then found else found ++ (u ∷ [])) a
        ≡ (contains found a || text_eq u a)
  add_found found u a = elim (Bool-cases (contains found u)) [
    | inl e ↦ elim (Bool-cases (text_eq u a)) [
      | inl f ↦ rw (e, f, subst (λ x. contains found x ≡ true) (text_eq_sound u a f) e) refl
      | inr f ↦ rw (e, f) (ground arith)
    ]
    | inr e ↦ rw e (contains_snoc found u a)
  ]

  collect_next :
      (found : List Text) (u : Text) (l out : List Text)
      → collect parse found (u ∷ l) ≡ ok out
      → (parse u ≡ address true)
        × (collect parse (if contains found u then found else found ++ (u ∷ [])) l ≡ ok out)
  unfolding collect
  collect_next found u l out h = ground arith

  collect-Collected :
      (l found out : List Text) → collect parse found l ≡ ok out → Collected found l out
  unfolding collect contains
  collect-Collected [] found out h = (tt, λ a. rw⁻¹ (ok-injective h) (or_false (contains found a)))
  collect-Collected (u ∷ l) found out h =
      let (global, rest) = collect_next found u l out h in
      let (globals, has) = collect-Collected l _ out rest in
      (
        (global, globals),
        λ a.
            has a
            ∙ ap (λ b. b || contains l a) (add_found found u a)
            ∙ or_assoc (contains found a) (text_eq u a) (contains l a),
      )

  answers_lem :
      (n m : Text) (o : Option (List Text)) (out : List Text)
      → answers parse n o ≡ ok (m, out)
      → (n ≡ m) × (out ≢ []) × ((l : List Text) × (o ≡ some l) × Collected [] l out)
  unfolding answers
  answers_lem n m none out h = absurd (cc h)
  answers_lem n m (some l) out h =
      after_and_then (collect parse [] l) (some_address n) (m, out) h
        (λ found e f.
          let (same, kept, filled) = some_address_lem n m found out f in
          (same, filled, (l, refl, rw⁻¹ kept (collect-Collected l [] found e))))

  -- A destination is permitted only if the host's normal form is in the allowlist, the port is the
  -- policy's, and the resolver answered with at least one address; every address of the answer is global
  -- then, and the result has exactly the addresses of the answer.
  pub authorize_destination_lem :
      (py : Python) (resolve : Text → ℕ → Option (List Text)) (host : Text) (port : ℕ)
      (p : EgressPolicy)
      → (n : Text) (out : List Text)
      → authorize_destination parse py resolve host port p ≡ ok (n, out)
      → (normal_host py host ≡ ok n)
        × (contains p.allowed_hosts n ≡ true)
        × (port ≡ p.connect_port)
        × (out ≢ [])
        × ((l : List Text) × (resolve n port ≡ some l)
            × All (λ a. parse a ≡ address true) l
            × ((a : Text) → contains out a ≡ contains l a))
  unfolding authorize_destination contains
  authorize_destination_lem py resolve host port p n out h =
      after_and_then (normal_host py host) _ (n, out) h
        (λ m em h1.
          let (listed, h2) = refuse_if-ok _ _ _ (n, out) h1 in
          let (right, h3) = refuse_if-ok _ _ _ (n, out) h2 in
          let (same, filled, (l, el, (globals, has))) = answers_lem m n (resolve m port) out h3 in
          (
            em ∙ ap ok same,
            rw⁻¹ same (ground arith),
            ground arith,
            filled,
            (l, rw⁻¹ same el, globals, has),
          ))

abbrev digest_name : Text
digest_name = codes "HARNESS_EGRESS_POLICY_SHA256"

-- The environment of a child that must go through the broker of a policy.
abbrev pub IsChild : Environment → EgressPolicy → Environment → Type 0
IsChild base q env =
    (env (codes "HTTP_PROXY") ≡ some (codes "http://" ++ endpoint q))
    × (env (codes "HTTPS_PROXY") ≡ some (codes "http://" ++ endpoint q))
    × (env (codes "ALL_PROXY") ≡ some (codes "http://" ++ endpoint q))
    × (env (codes "http_proxy") ≡ none)
    × (env (codes "https_proxy") ≡ none)
    × (env (codes "all_proxy") ≡ none)
    × (env (codes "no_proxy") ≡ none)
    × (env digest_name ≡ some q.digest)
    × ((k : Text) → contains proxy_names k ≡ false → text_eq digest_name k ≡ false → env k ≡ base k)

apart : (l : List Text) (k : Text) → contains l k ≡ false → All (λ u. text_eq u k ≡ false) l
unfolding contains
apart [] k h = tt
apart (u ∷ l) k h = (ground arith, apart l k (ground arith))

update_kept :
    (env : Environment) (l : List (Text × Text)) (k : Text)
    → All (λ p. text_eq p.0 k ≡ false) l
    → update env l k ≡ env k
unfolding update
update_kept env [] k h = refl
update_kept env ((n, v) ∷ l) k h = rw h.0 (update_kept env l k h.1)

without_kept :
    (env : Environment) (names : List Text) (k : Text)
    → contains names k ≡ false
    → without env names k ≡ env k
unfolding without
without_kept env names k h = rw h refl

child_kept :
    (base : Environment) (q : EgressPolicy) (k : Text)
    → contains proxy_names k ≡ false
    → text_eq digest_name k ≡ false
    → child_environment base q k ≡ base k
unfolding child_environment
child_kept base q k h d =
    let a = apart proxy_names k h in
    update_kept (without base proxy_names) (proxy_settings q) k
      (a.0, (a.1.0, (a.1.1.0, (a.1.1.1.1.1.1.0, (d, tt)))))
    ∙ without_kept base proxy_names k h

child_environment-IsChild :
    (base : Environment) (q : EgressPolicy) → IsChild base q (child_environment base q)
unfolding child_environment update without contains text_eq
child_environment-IsChild base q =
    (refl, refl, refl, refl, refl, refl, refl, refl, child_kept base q)

worker_under_lem :
    (py : Python) (again : Source) (base env : Environment) (s : State)
    → worker_under py again base s ≡ ok env
    → ((p q : EgressPolicy) × (s ≡ verified p)
        × (load_policy py again ≡ ok q)
        × IsSafe py q
        × IsChild base q env)
unfolding worker_under
worker_under_lem py again base env (unverified x) e = cc
worker_under_lem py again base env (verified p) e =
    after_and_then (load_policy py again) (λ q. ok (child_environment base q)) env e
      (λ q l made. (
        p,
        q,
        refl,
        l,
        load_policy-IsSafe py again q l,
        subst (IsChild base q) (ok-injective made) (child_environment-IsChild base q),
      ))

-- A child's environment is made only if the boundary is verified. It sends the three proxy variables to
-- the broker, has no lower-case proxy variable, names the digest of the policy as loaded, which is a
-- safe one, and is the given environment in every other variable.
worker_environment_lem :
    (py : Python) (source again : Source) (h : Host) (now : ℕ) (base env : Environment)
    → worker_environment py source again h now base ≡ ok env
    → ((p q : EgressPolicy) × (boundary_state py source h now ≡ verified p)
        × (load_policy py again ≡ ok q)
        × IsSafe py q
        × IsChild base q env)
unfolding worker_environment
worker_environment_lem py source again h now base env e =
    worker_under_lem py again base env (boundary_state py source h now) e
