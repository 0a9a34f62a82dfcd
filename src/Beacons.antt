-- ===== src/Beacons.antt =====
-- backend/app/beacons: the NCDXF/IARU beacon monitor.
pub mod Catalog
pub mod Scheduler
