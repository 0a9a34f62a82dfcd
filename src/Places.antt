-- ===== src/Places.antt =====
-- Where a station is: backend/app/dependencies/helpers.py, by its callsign and by its locator.
pub mod Dxcc
pub mod Maidenhead
mod Tests
