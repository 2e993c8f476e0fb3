-- ===== src/Bulk.antt =====
-- apps/web/src/components/service-bulk-actions.tsx: one action on each selected service.
pub mod Names
pub mod Free
pub mod Run
pub mod Ran
mod Duplicates
pub mod Tests
