-- ===== src/Predictions.antt =====
-- prediction_machine/core/prediction_store.py: the database of predictions. `Rows` has the table of predictions,
-- `Store` the operations that write it, `Queries` those that read it, `Versions` the model versions,
-- `Experiments` the experiments, and the other modules the proofs.
pub mod Rows
pub mod Store
pub mod Queries
pub mod Lookup
pub mod Kept
pub mod Refined
pub mod Ordered
pub mod Versions
pub mod Active
pub mod Interleaved
pub mod Experiments
pub mod Selected
mod Examples
