-- ===== src/Examples.antt =====
-- Tests: the properties at concrete inputs.
mod Data
mod Journal
mod Inbox
mod Outbox
mod Binding
mod Effect
mod Link
mod Policy
mod Fixture
mod Runtime
mod External
