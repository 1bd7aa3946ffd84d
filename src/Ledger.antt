-- ===== src/Ledger.antt =====
-- The ledger of what agents put out: ReportTaskMessages (server/internal/handler/daemon.go) and its
-- table task_message.
pub mod Reports
pub mod Guarded
pub mod Storing
pub mod Once
pub mod Repeats
pub mod Limits
pub mod Accepted
pub mod Delivered
pub mod Posting
pub mod Passing
pub mod Fresh
pub mod Arrival
