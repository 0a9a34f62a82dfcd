-- ===== src/Retention.antt =====
-- Which events are kept: the selections of backend/app/storage/db.py in Tables, and the cycle of
-- backend/app/core/retention.py in Cycle.
pub mod Tables
pub mod Cycle
mod Tests
