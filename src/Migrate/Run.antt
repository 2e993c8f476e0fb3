-- ===== src/Migrate/Run.antt =====
-- The top level of scripts/migrate-dokploy.ts. `prepare` is what runs before the first stop,
-- `cut_over` what runs from there on.
pub mod Order
pub mod Stops
mod Tests
use vexdock.Base.{
  ℕ, Bool, true, false, not, Option, none, some, List, [], ◌∷◌, ◌++◌, leb, if◌then◌else◌,
}
use vexdock.Text.{Text, codes}
use vexdock.Migrate.Types.{
  DokployApp, DokployCompose, DokployPostgres, Source, get, post, address, ignored, project,
}
use vexdock.Migrate.World.{
  Host, M, pure, throw, ◌>>=◌, ◌>>◌, gets, each, require, expect, dokploy, vexdock_api,
  vexdock_json, env,
}
use vexdock.Migrate.Create.{Target, has_text, default_environment, create_app, create_compose}
use vexdock.Migrate.Source.{string, plain, read_dokploy_project}
use vexdock.Migrate.Postgres.{create_postgres}
use vexdock.Migrate.Volumes.{copy_volume, restore_dump}

pub record Prepared : Type 0 where
  pub source : Source
  pub target : Target
  pub dokploy_ip : Text

-- `source.composes.filter(c => c.env?.trim()).length > 1` is refused.
abbrev pub with_env : List DokployCompose → List DokployCompose
with_env [] = []
with_env (c ∷ cs) = if has_text c.env then c ∷ with_env cs else with_env cs

abbrev pub at_most_one : List DokployCompose → Bool
at_most_one (_ ∷ _ ∷ _) = false
at_most_one _ = true

module _ (h : Host) where
  -- The settings are read first, and then again by each request.
  unfoldable pub prepare : Text → M Prepared
  prepare project_name = do
    env h (codes "DOKPLOY_URL")
    env h (codes "DOKPLOY_API_KEY")
    env h (codes "VEXDOCK_URL")
    env h (codes "VEXDOCK_TOKEN")
    source ← read_dokploy_project h project_name
    created ←
        vexdock_json h project post (codes "/api/projects")
          (plain (string (codes "name") project_name) ∷ [])
    environment ← default_environment created
    let target : Target = record {
      project_id = created.id;
      environment_id = environment.id;
      volume_prefix = environment.compose_project_name ++ b'_' ∷ [];
    }
    require (at_most_one (with_env source.composes))
        (codes "more than one compose has a .env; vexdock shares one per environment")
    each source.postgres (create_postgres h target)
    each source.apps (create_app h target)
    each source.composes (create_compose h target)
    ip ← dokploy h address get (codes "settings.getIp") []
    pure (record { source = source; target = target; dokploy_ip = ip })

  unfoldable pub stop_app : DokployApp → M (Unit {0})
  stop_app app = do
    dokploy h ignored post (codes "application.stop")
        (plain (string (codes "applicationId") app.application_id) ∷ [])
    pure tt

  unfoldable pub stop_compose : DokployCompose → M (Unit {0})
  stop_compose compose = do
    dokploy h ignored post (codes "compose.stop")
        (plain (string (codes "composeId") compose.compose_id) ∷ [])
    pure tt

  unfoldable pub stop_postgres : DokployPostgres → M (Unit {0})
  stop_postgres pg = do
    dokploy h ignored post (codes "postgres.stop")
        (plain (string (codes "postgresId") pg.postgres_id) ∷ [])
    pure tt

  unfoldable pub stop_all : Source → M (Unit {0})
  stop_all source = do each source.apps stop_app; each source.composes stop_compose

  -- Volumes, then databases; the old databases run until their dumps are restored.
  unfoldable pub move_data : ℕ → Prepared → M (Unit {0})
  move_data polls p = do
    copies ← gets (λ w. w.copies)
    each copies (copy_volume h p.target polls p.source.environment_id p.dokploy_ip)
    dumps ← gets (λ w. w.dumps)
    each dumps (restore_dump h p.target polls p.dokploy_ip)
    each p.source.postgres stop_postgres
    vexdock_api h ignored post (codes "/api/projects/" ++ p.target.project_id ++ codes "/deploy") []
    pure tt

  unfoldable pub cut_over : ℕ → Prepared → M (Unit {0})
  cut_over polls p = do stop_all p.source; move_data polls p

  -- The usage error of a missing argument, and of an empty one, comes first.
  unfoldable pub migrate : ℕ → Option Text → M (Unit {0})
  migrate polls none =
      throw (codes "usage: bun scripts/migrate-dokploy.ts \"<dokploy project name>\"")
  migrate polls (some []) =
      throw (codes "usage: bun scripts/migrate-dokploy.ts \"<dokploy project name>\"")
  migrate polls (some (c ∷ cs)) = do prepared ← prepare (c ∷ cs); cut_over polls prepared
