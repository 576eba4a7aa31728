-- ===== src/Net.antt =====
-- The client library, lib/nirantara-net/.
pub mod Enroll
pub mod Client
mod Tests
