-- ===== src/Store.antt =====
-- The PostgreSQL tables behind the server and the statements that the services run on them
-- (server/pkg/db/generated). `Rows` holds the tables' rows, `Tx` a database, a transaction and the
-- ways in which a statement can fail, and the other children one function per statement.
pub mod Rows
pub mod Tx
pub mod Tasks
pub mod Runs
pub mod Outbox
pub mod Io
pub mod Loops
pub mod Consumer
pub mod Claims
pub mod Leases
