-- ===== src/Scan.antt =====
-- backend/app/scan: what the receiver listens to, and when.
pub mod Rotation
pub mod Windows
pub mod Schedules
