-- ===== src/Queue.antt =====
-- server/internal/service/task.go: work items enter the queue, and the requests of agents and
-- runtimes take them from it.
pub mod Enqueue
pub mod Claiming
