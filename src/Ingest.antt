-- ===== src/Ingest.antt =====
-- From what a decoder heard to an event: backend/app/decoders/ingest.py, with the table of bands of
-- backend/app/dependencies/helpers.py beside its own.
pub mod Bands
pub mod Callsigns
pub mod Values
pub mod Events
mod Tests
