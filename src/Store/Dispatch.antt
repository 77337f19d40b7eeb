-- ===== src/Store/Dispatch.antt =====
-- The journal of executions under every operation that writes it: what a dispatch, an effect and a
-- terminal result are allowed to become.
pub mod Rows
pub mod Writes
pub mod Closing
pub mod Refusal
pub mod History
pub mod Marks
pub mod Once
pub mod Reservation
pub mod Retry
pub mod Transitions
