-- ===== src/Handlers.antt =====
-- internal/handlers: the four endpoints under /api/v1/auth and the small ones beside them.
pub mod Responses
pub mod Register
pub mod Login
pub mod Session
pub mod PublicKey
