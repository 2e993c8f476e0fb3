-- ===== src/Migrate.antt =====
-- scripts/migrate-dokploy.ts: moves one Dokploy project onto a vexdock server. `Types` holds the
-- source's types, `World` the calls and the state that the run keeps, `Fragment` and `Variables`
-- the pure parts, `Source`, `Create`, `Postgres`, `Volumes` and `Run` the steps in the order in which they call.
pub mod Types
pub mod World
pub mod Fragment
pub mod Variables
pub mod Source
pub mod Create
pub mod Postgres
pub mod Volumes
pub mod Run
