-- ===== src/Outbox.antt =====
-- server/internal/service/lifecycle_outbox.go: the worker that projects lifecycle events, under a
-- lease that another worker may take over.
pub mod Worker
pub mod Orderly
pub mod Leasing
pub mod Steps
pub mod Order
pub mod Permanence
pub mod Fencing
pub mod Rounds
