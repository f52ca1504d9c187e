-- ===== src/Ledger.antt =====
-- orchestrator/ledger.py and ledger/schema.sql: the table `tasks`. `Rows` has the rows and the
-- statuses, `Store` the operations that write them, `Verdicts` the reading of spot-check notes, `Pending` the rows to look at, and
-- the other modules the proofs.
pub mod Rows
pub mod Store
pub mod Keys
pub mod Writes
pub mod Spend
pub mod Verdicts
pub mod Pending
mod Examples
