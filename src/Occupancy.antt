-- ===== src/Occupancy.antt =====
-- What the scan makes of a signal by its frequency: backend/app/dependencies/helpers.py.
pub mod Hints
pub mod Events
mod Tests
