-- ===== src/Examples.antt =====
-- Tests, on the concrete platform of Sim: two servers, "hub" with the primary and "east" with a
-- replica, and the theorems applied to them.
pub mod Sites
mod Steps
mod Clients
mod Decisions
mod Runs
mod Operator
mod Promotions
mod Binary
