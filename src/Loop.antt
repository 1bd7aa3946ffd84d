-- ===== src/Loop.antt =====
-- server/internal/loop: the engineering loop, from its policy to its durable projector.
pub mod Policy
pub mod Verdict
pub mod Coordinator
pub mod Projector
pub mod Restore
pub mod Handler
mod Frame
mod Waiting
pub mod Starting
pub mod Restoring
pub mod Delivery
pub mod Progress
pub mod Agents
pub mod Operators
