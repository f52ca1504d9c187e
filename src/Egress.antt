-- ===== src/Egress.antt =====
-- orchestrator/egress_policy.py: the worker's egress policy, the attestation of its boundary and the
-- destinations that it permits. `Document` has what is read, `Load` the policy, `Boundary` the
-- attestation, `Worker` the environment and the destinations; the other modules have the proofs.
pub mod Document
pub mod Load
pub mod Boundary
pub mod Worker
pub mod Safe
pub mod Attested
pub mod Destinations
pub mod Examples
