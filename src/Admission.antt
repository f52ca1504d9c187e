-- ===== src/Admission.antt =====
-- orchestrator/runtime_admission.py: the admission of a run. `Dependencies` has the two checks of
-- orchestrator/dependency_integrity.py that it asks, `Checks` the admission, `Admitted` the proofs.
pub mod Dependencies
pub mod Scanned
pub mod Checks
pub mod Admitted
pub mod Locked
mod Examples
