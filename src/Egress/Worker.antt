-- ===== src/Egress/Worker.antt =====
-- orchestrator/egress_policy.py: `worker_environment` and `authorize_destination`.
use agi_inspired.Prelude.{
  ℕ, Bool, true, false, not, Option, none, some, List, [], ◌∷◌, ◌++◌, ◌==◌, if◌then◌else◌,
}
use agi_inspired.Prelude.Text.{Text, codes, text_eq, contains}
use agi_inspired.Egress.Document.{
  Source, Python, boundary_unverified, host_not_allowlisted, port_not_allowed,
  dns_resolution_failed, invalid_dns_answer, non_global_destination, dns_resolution_empty, Result,
  raised, ok, and_then, refuse_if, EgressPolicy,
}
use agi_inspired.Egress.Load.{load_policy, normal_host}
use agi_inspired.Egress.Boundary.{State, verified, unverified, Host, boundary_state, endpoint}

-- A child's environment, by the names of its variables.
abbrev pub Environment : Type 0
Environment = Text → Option Text

abbrev pub proxy_names : List Text
proxy_names =
    codes "HTTP_PROXY"
    ∷ codes "HTTPS_PROXY"
    ∷ codes "ALL_PROXY"
    ∷ codes "http_proxy"
    ∷ codes "https_proxy"
    ∷ codes "all_proxy"
    ∷ codes "NO_PROXY"
    ∷ codes "no_proxy"
    ∷ []

unfoldable pub without : Environment → List Text → Environment
unfolding contains
without env names k = if contains names k then none else env k

-- `env.update`: the last of two equal keys would count, and there are none.
unfoldable pub update : Environment → List (Text × Text) → Environment
unfolding text_eq
update env [] k = env k
update env ((n, v) ∷ l) k = let rest = update env l k in if text_eq n k then some v else rest

-- What a child's environment gains.
abbrev pub proxy_settings : EgressPolicy → List (Text × Text)
proxy_settings p =
    (codes "HTTP_PROXY", codes "http://" ++ endpoint p)
    ∷ (codes "HTTPS_PROXY", codes "http://" ++ endpoint p)
    ∷ (codes "ALL_PROXY", codes "http://" ++ endpoint p)
    ∷ (codes "NO_PROXY", codes "localhost,127.0.0.1,::1")
    ∷ (codes "HARNESS_EGRESS_POLICY_SHA256", p.digest)
    ∷ []

unfoldable pub child_environment : Environment → EgressPolicy → Environment
unfolding without update
child_environment base p = update (without base proxy_names) (proxy_settings p)

-- The rest of `worker_environment`, after the boundary's state. The policy's file is read once more.
unfoldable pub worker_under : Python → Source → Environment → State → Result Environment
worker_under py again base (unverified e) = raised boundary_unverified
worker_under py again base (verified p) =
    and_then (load_policy py again) (λ q. ok (child_environment base q))

-- `worker_environment` with its own `boundary_state`; `again` is what the second reading finds.
unfoldable pub worker_environment :
    Python → Source → Source → Host → ℕ → Environment → Result Environment
worker_environment py source again h now base =
    worker_under py again base (boundary_state py source h now)

-- `ipaddress`: no address, or one that is or is not global.
pub data Parsed : Type 0 where
  no_address : Parsed
  address : Bool → Parsed

unfoldable pub some_address : Text → List Text → Result (Text × List Text)
some_address n [] = raised dns_resolution_empty
some_address n (a ∷ l) = ok (n, a ∷ l)

module _ (parse : Text → Parsed) where
  -- The loop over the resolver's records, with the addresses so far.
  unfoldable pub collect : List Text → List Text → Result (List Text)
  unfolding contains
  collect found [] = ok found
  collect found (a ∷ l) =
      let rest = collect (if contains found a then found else found ++ (a ∷ [])) l in
      elim (parse a) [
        | no_address ↦ raised invalid_dns_answer
        | address false ↦ raised non_global_destination
        | address true ↦ rest
      ]

  unfoldable pub answers : Text → Option (List Text) → Result (Text × List Text)
  answers n none = raised dns_resolution_failed
  answers n (some l) = and_then (collect [] l) (some_address n)

  -- `authorize_destination`; the resolver is `none` for an `OSError`.
  unfoldable pub authorize_destination :
      Python → (Text → ℕ → Option (List Text)) → Text → ℕ → EgressPolicy → Result (Text × List Text)
  unfolding contains
  authorize_destination py resolve host port p = and_then (normal_host py host) (λ n.
      refuse_if (not (contains p.allowed_hosts n)) host_not_allowlisted
        (refuse_if (not (port == p.connect_port)) port_not_allowed (answers n (resolve n port))))
