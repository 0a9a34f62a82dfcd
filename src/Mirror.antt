-- ===== src/Mirror.antt =====
-- backend/app/external_mirrors: pushing the local event tables to remote hosts.
pub mod Table
pub mod Payload
pub mod Http
pub mod Repository
pub mod Pusher
