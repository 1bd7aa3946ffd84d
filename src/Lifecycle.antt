-- ===== src/Lifecycle.antt =====
-- server/internal/service/run_lifecycle.go and lifecycle_event.go: the one writer of work items and
-- runs. A method returns its result and the database afterwards.
pub mod Phases
pub mod Guards
pub mod Sweeping
pub mod Sweeps
pub mod Recovery
pub mod Cancel
pub mod Agreement
pub mod Effects
pub mod Calls
pub mod Atomic
pub mod Moves
pub mod Links
pub mod Transitions
pub mod Queries
pub mod Bulk
