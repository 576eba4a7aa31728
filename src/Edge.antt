-- ===== src/Edge.antt =====
-- The edge agent of edge/: the SQLite buffer, the Postgres sync and the agent's main program.
pub mod Sqlite
pub mod Postgres
pub mod Buffer
pub mod Sync
pub mod Agent
pub mod Delivery
mod Tests
