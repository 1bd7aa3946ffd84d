-- ===== src/Adapter.antt =====
-- The contract of the runtime adapters and the policy of the loop's stages
-- (server/pkg/agent/contract.go, server/internal/loop/stages/tools.go).
pub mod Contract
pub mod Known
pub mod Stages
pub mod Options
pub mod Dispatch
