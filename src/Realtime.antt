-- ===== src/Realtime.antt =====
-- server/internal/realtime and server/internal/corsconfig: the web-socket clients, what they are
-- sent, and where they may come from.
pub mod Hub
pub mod Isolation
pub mod Origin
pub mod Allowing
