-- ===== src/Scheduler.antt =====
-- orchestrator/scheduler.py: the life of a task between runs. `Queue` queues a mission's weekly
-- seeds, `Parked` expires what an earlier week has left, and `Recovery` reconciles the tasks of dead
-- processes. Their children have the proofs.
pub mod Queue
pub mod Fairness
pub mod Parked
pub mod Recovery
pub mod Reconciled
mod Examples
