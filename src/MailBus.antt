-- ===== src/MailBus.antt =====
-- orchestrator/mailbus.py: mailboxes of files between agents. `Message` has the schema, `Commands` the
-- interception, `Files` the files, `Retry` the retry ladder, `Router` the routing cycle, `Agent` what
-- an agent calls, `Deferred` the operator's buffer, and the other modules the proofs.
pub mod Message
pub mod Commands
pub mod Files
pub mod Paths
pub mod Retry
pub mod Router
pub mod Valid
pub mod Routed
pub mod Delivery
pub mod Caps
pub mod Cycles
pub mod Settled
pub mod Agent
pub mod Guarded
pub mod Sending
pub mod Deferred
pub mod Drained
mod Examples
