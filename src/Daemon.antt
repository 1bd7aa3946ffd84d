-- ===== src/Daemon.antt =====
-- server/internal/daemon: the client program that runs work items on a user's machine.
pub mod Messages
pub mod Splitting
pub mod Output
pub mod Numbers
pub mod Numbering
pub mod Exchanges
