-- ===== src/Kiss.antt =====
-- backend/app/decoders/direwolf_kiss.py: KISS framing and AX.25 headers.
pub mod Buffer
pub mod Ax25
