-- ===== src/Runtime.antt =====
-- server/internal/handler/runtime_update.go and runtime_ping.go: the requests that the server keeps in
-- memory for a runtime until its daemon asks for them.
pub mod Updates
pub mod Exclusive
pub mod Pings
pub mod Oldest
