-- ===== src/Edge/Tests.antt =====
-- The edge agent on small inputs, over a list for the SQLite table and a list for the cloud table.
mod Engines
mod Data
mod Runs
mod Agent
mod Delivery
mod Laws
mod Reads
