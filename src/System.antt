-- ===== src/System.antt =====
-- The work items, runs and agents under all the operations of the server together: the invariant,
-- the operations that start no attempt, and the ones that do.
pub mod Sound
pub mod Quiet
pub mod Growth
pub mod Arrivals
pub mod Callbacks
pub mod Cancelling
pub mod Bulks
pub mod Claims
pub mod Requests
pub mod Rejections
pub mod Dispatching
pub mod Steps
pub mod Reach
pub mod Serving
pub mod Fitting
