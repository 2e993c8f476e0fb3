-- ===== src/Format.antt =====
-- apps/web/src/lib/format.ts: how the panel prints readings, times and log lines. `Ansi` cuts a line
-- at its terminal escapes, `Sgr` reads their colors.
pub mod Scan
pub mod Sgr
pub mod Ansi
pub mod Bytes
pub mod Mask
pub mod Times
pub mod LogLine
pub mod AccessLine
pub mod Build
mod Tests
