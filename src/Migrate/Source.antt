-- ===== src/Migrate/Source.antt =====
-- What scripts/migrate-dokploy.ts reads from Dokploy before it creates anything:
-- `readDokployProject`. The fields of a request's body.
use vexdock.Base.{Option, none, some, List, [], ◌∷◌, ◌++◌, ◌==◌, if◌then◌else◌}
use vexdock.Text.{Text, codes, text_eq}
use vexdock.Migrate.Types.{
  DokployEnvironment, DokployProject, Source, Scalar, Json, null, str, scalar, get, all_projects,
  one_app, one_compose, one_postgres,
}
use vexdock.Migrate.World.{Host, M, pure, ◌>>=◌, ◌>>◌, collect, require, expect, dokploy}

abbrev pub string : Text → Text → Text × Scalar
string key s = (key, str s)

-- A `string | null` property.
abbrev pub or_null : Option Text → Scalar
or_null none = null
or_null (some s) = str s

abbrev pub plain : Text × Scalar → Text × Json
plain (key, v) = (key, scalar v)

abbrev pub find_project : Text → List DokployProject → Option DokployProject
find_project name [] = none
find_project name (p ∷ ps) =
    let rest = find_project name ps in if text_eq p.name name then some p else rest

abbrev pub only_environment : List DokployEnvironment → Option DokployEnvironment
only_environment (e ∷ []) = some e
only_environment _ = none

module _ (h : Host) where
  unfoldable pub read_dokploy_project : Text → M Source
  read_dokploy_project name = do
    projects ← dokploy h all_projects get (codes "project.all") []
    found ← expect (find_project name projects) (codes "no Dokploy project named " ++ name)
    only ←
        expect (only_environment found.environments)
          (codes "only single-environment Dokploy projects are supported")
    require (only.mysql == 0) (codes "mysql databases are not migrated yet")
    require (only.mariadb == 0) (codes "mariadb databases are not migrated yet")
    require (only.mongo == 0) (codes "mongo databases are not migrated yet")
    require (only.redis == 0) (codes "redis databases are not migrated yet")
    require (only.libsql == 0) (codes "libsql databases are not migrated yet")
    apps ← collect only.applications λ id.
        dokploy h one_app get (codes "application.one")
          (plain (string (codes "applicationId") id) ∷ [])
    composes ← collect only.compose λ id.
        dokploy h one_compose get (codes "compose.one") (plain (string (codes "composeId") id) ∷ [])
    postgres ← collect only.postgres λ id.
        dokploy h one_postgres get (codes "postgres.one")
          (plain (string (codes "postgresId") id) ∷ [])
    pure (record {
      environment_id = only.environment_id;
      apps = apps;
      composes = composes;
      postgres = postgres;
    })
