-- ===== src/Store.antt =====
-- The database as the services see it: tables, queries, and sessions.
pub mod Schema
pub mod Env
pub mod Session
pub mod Queries
