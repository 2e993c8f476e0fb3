-- ===== src/Crumbs.antt =====
-- apps/web/src/components/crumb-picker.tsx: the segments of the breadcrumb that switch. `Picker` is
-- `CrumbPicker`, `Walk` its arrow keys, `Switch` the environments of `EnvironmentCrumb`, `Race` several
-- switches at once.
pub mod Picker
pub mod Walk
pub mod Switch
pub mod Race
mod Tests
