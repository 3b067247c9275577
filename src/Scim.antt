-- ===== src/Scim.antt =====
-- Package scim: the client of the partner directory.
pub mod Types
pub mod Pages
pub mod Http
pub mod Client
pub mod Service
pub mod New
