-- ===== src/Api.antt =====
-- apps/web/src/lib/api.ts: the client of the manager's API.
pub mod Call
pub mod Types
pub mod Browser
pub mod Projects
pub mod Analytics
pub mod Services
pub mod Routing
pub mod Docker
pub mod System
pub mod Own
pub mod Request
pub mod Told
mod Tests
