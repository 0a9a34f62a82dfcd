-- ===== src/Auth.antt =====
-- Who may use the server: backend/app/core/auth.py in Header, the credentials and sessions that the
-- server keeps in Server, the checks of backend/app/dependencies/auth.py in Access and the handlers
-- of backend/app/api/auth.py in Login.
pub mod Header
pub mod Server
pub mod Access
pub mod Login
