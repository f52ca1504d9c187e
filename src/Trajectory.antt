-- ===== src/Trajectory.antt =====
-- orchestrator/trajectory.py: the hash chain of a task's events. `Chain` has the file and its verification,
-- `Writer` the writer, and `Extended` the proofs.
pub mod Chain
pub mod Writer
pub mod Extended
pub mod Broken
mod Examples
