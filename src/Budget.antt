-- ===== src/Budget.antt =====
-- orchestrator/policy.py: the day's limits. `Limits` has the budgets, `Estimates` the proofs.
pub mod Limits
pub mod Estimates
mod Examples
