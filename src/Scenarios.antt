-- ===== src/Scenarios.antt =====
-- Concrete databases on which the theorems are applied.
pub mod Data
pub mod Attempts
pub mod Loops
pub mod Edges
pub mod Plans
pub mod Service
pub mod Workers
pub mod Members
pub mod Ledger
