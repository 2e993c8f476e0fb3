-- ===== src/Transfer.antt =====
-- apps/web/src/components/import-services-form.tsx: services that travel between projects as an
-- export.
pub mod Decode
pub mod Merge
mod Merged
mod Imported
pub mod Import
mod Tests
