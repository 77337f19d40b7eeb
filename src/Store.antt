-- ===== src/Store.antt =====
-- python/src/deferred_teleop/storage.py: the durable SQLite store of one endpoint.
pub mod Schema
pub mod Monad
pub mod Inbox
pub mod Outbox
pub mod Journal
pub mod Budget
pub mod Outcome
pub mod Denial
pub mod Dispatch
pub mod Binding
pub mod Decision
pub mod Effect
