-- ===== src/RunLock.antt =====
-- orchestrator/runlock.py: the exclusive lock of a run. `Held` has the operations, `Reclaim` the proofs.
pub mod Held
pub mod Reclaim
pub mod Race
mod Examples
