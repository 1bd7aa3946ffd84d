-- ===== src/Planner.antt =====
-- The planner of task graphs: its answer read, checked and matched to agents
-- (server/internal/service/planner.go).
pub mod Answer
pub mod Agents
pub mod Checked
pub mod Matching
