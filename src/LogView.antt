-- ===== src/LogView.antt =====
-- apps/web/src/components/log-viewer.tsx: the console of a container's log or of a build.
pub mod Last
pub mod Buffer
pub mod Severity
pub mod Steps
pub mod View
mod Hidden
mod Bounds
mod Ideal
mod Tests
