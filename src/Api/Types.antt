-- ===== src/Api/Types.antt =====
-- The JSON types of apps/web/src/lib/api.ts, by the part of the panel that reads them. `type` and
-- `where` are kind and conditions here, `from` and `to` from_day and to_day.
pub mod Analytics
pub mod Audience
pub mod Projects
pub mod Services
pub mod Docker
pub mod System
pub mod Access
pub mod Studio
