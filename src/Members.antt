-- ===== src/Members.antt =====
-- Workspaces and their members: server/internal/handler/workspace.go, the guard of its routes
-- (server/internal/middleware/workspace.go), and server/internal/handlerutil/member.go.
pub mod Tables
pub mod Directory
pub mod Guards
pub mod Handlers
pub mod Requests
pub mod Rules
pub mod Changes
pub mod Joining
pub mod Altering
pub mod Identifiers
pub mod Owners
pub mod Owned
pub mod Privileges
pub mod Founding
pub mod Serving
