-- ===== src/Pause.antt =====
-- orchestrator/execution_pause.py: the ESTOP sentinel, its tamper detection and the operator's signed
-- markers. `World` has what the functions read and write, `Checks` the functions that only read,
-- `Actions` those that write; the other modules have the proofs.
pub mod World
pub mod Checks
pub mod Actions
pub mod Closed
pub mod Authorized
pub mod Canary
mod Examples
