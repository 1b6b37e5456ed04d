-- ===== src/Web.antt =====
-- tr_bridge/adapters/web and tr_bridge/auth.py: the HTTP side of the service.
pub mod Auth
pub mod Handlers
pub mod Schemas
pub mod Routes
pub mod Table
