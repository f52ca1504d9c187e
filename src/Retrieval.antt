-- ===== src/Retrieval.antt =====
-- orchestrator/retrieval_progress.py: the policy that bounds how long a research worker may stay
-- with one retrieval strategy. `Policy` has the policies and the classification of tools, `Extract`
-- what is read from a tool's result, `Controller` the state machine.
pub mod Policy
pub mod Extract
pub mod State
pub mod Controller
pub mod After
pub mod Budget
pub mod Stages
pub mod Progress
pub mod Run
pub mod Decisions
pub mod Setup
mod Examples
