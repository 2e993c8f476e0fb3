-- ===== src/Dotenv.antt =====
-- apps/web/src/lib/dotenv.ts: the environment editor's text form of a service's variables. `Value`
-- writes and reads one value, `Entries` reads the lines, `Vars` maps between text and variables and
-- holds what Save checks.
pub mod Value
pub mod Entries
pub mod Vars
pub mod RoundTrip
pub mod Readable
pub mod Save
pub mod Tests
mod Witness
