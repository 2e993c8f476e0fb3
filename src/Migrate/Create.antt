-- ===== src/Migrate/Create.antt =====
-- What scripts/migrate-dokploy.ts creates on vexdock before it stops anything: `defaultEnvironment`,
-- `createApp`, `createCompose`, `createDomains`.
pub mod Reads
use vexdock.Base.{
  ℕ, zero, suc, Bool, true, false, not, ◌&&◌, ◌||◌, Option, none, some, List, [], ◌∷◌, ◌++◌, leb,
  ◌==◌, if◌then◌else◌, map,
}
use vexdock.Text.{Text, codes, text_eq, trim, split, join}
use vexdock.Migrate.Types.{
  DokployDomain, DokployMount, DokployPort, DokployApp, DokployCompose, DokployPostgres,
  DokployEnvironment, DokployProject, VexdockEnvironment, VexdockProject, DatabaseDump, Source,
  Scalar, Json, Yaml, null, bool, num, str, scalar, object, Body, get, post, patch, Fields,
  all_projects, one_app, one_compose, one_postgres, project, service, ignored,
}
use vexdock.Migrate.World.{
  Host, dropped_networks, routed_path, M, pure, throw, ◌>>=◌, ◌>>◌, modify, each, collect, require,
  expect, dokploy, vexdock_api, vexdock_json, env,
}
use vexdock.Migrate.Fragment.{get_field, raw_fields, drops_networks, trim_lines, named_volumes}
use vexdock.Migrate.Source.{string, or_null, plain}
use vexdock.Migrate.Variables.{put_variables, or_empty}

-- The constants of the module that the steps close over.
pub record Target : Type 0 where
  pub project_id : Text
  pub environment_id : Text
  pub volume_prefix : Text

abbrev pub undefined_read : Text
undefined_read = codes "undefined is not an object"

-- `env?.trim()`, as a condition.
abbrev pub has_text : Option Text → Bool
has_text none = false
has_text (some s) = not (text_eq (trim s) [])

-- A text that is there and not empty, as a condition reads it.
abbrev pub not_empty : Option Text → Option Text
not_empty none = none
not_empty (some []) = none
not_empty (some (c ∷ cs)) = some (c ∷ cs)

abbrev pub second : List Text → Option Text
second (_ ∷ (c ∷ cs) ∷ _) = some (c ∷ cs)
second _ = none

abbrev pub is_name : Text → Option Text → Bool
is_name name none = false
is_name name (some s) = text_eq s name

unfoldable pub note_path : Text → Text → Text → M (Unit {0})
note_path host path service_name =
    modify (λ w. record w { skipped = w.skipped ++ routed_path host path service_name ∷ [] })

unfoldable pub note_networks : Option Yaml → M (Unit {0})
note_networks none = pure tt
note_networks (some networks) =
    if drops_networks (some networks)
    then modify (λ w. record w { skipped = w.skipped ++ dropped_networks networks ∷ [] })
    else pure tt

abbrev pub find_default : List VexdockEnvironment → Option VexdockEnvironment
find_default [] = none
find_default (e ∷ es) = let rest = find_default es in if e.is_default then some e else rest

unfoldable pub default_environment : VexdockProject → M VexdockEnvironment
default_environment created =
    expect (find_default created.environments)
      (codes "the new vexdock project has no default environment")

abbrev pub services_path : Target → Text
services_path t = codes "/api/projects/" ++ t.project_id ++ codes "/services"

abbrev pub service_path : Text → Text → Text
service_path id rest = codes "/api/services/" ++ id ++ rest

-- `domain.path && domain.path !== '/'`
abbrev pub is_subpath : Option Text → Bool
is_subpath none = false
is_subpath (some path) = not (text_eq path []) && not (text_eq path (codes "/"))

-- `domain.port ?? 80`
abbrev pub port_or_http : Option ℕ → ℕ
port_or_http none = 80
port_or_http (some port) = port

-- A mount's volume, if it is a named one.
abbrev pub mounted : DokployMount → Option Text
mounted mount = if text_eq mount.kind (codes "volume") then not_empty mount.volume_name else none

-- `d.serviceName === serviceName`
abbrev pub serves : Text → List DokployDomain → List DokployDomain
serves name [] = []
serves name (d ∷ ds) = if is_name name d.service_name then d ∷ serves name ds else serves name ds

unfoldable pub note_copy : Text → Text → M (Unit {0})
note_copy from to =
    modify (λ w. record w { copies = w.copies ++ record { from = from; to = to } ∷ [] })

module _ (h : Host) where
  -- The body of a service that runs an application.
  unfoldable pub app_source : DokployApp → M Body
  app_source app =
      if text_eq app.source_type (codes "docker")
      then pure (
          plain (string (codes "name") app.name)
          ∷ plain (string (codes "provider") (codes "image"))
          ∷ plain (codes "image", or_null app.docker_image)
          ∷ [])
      else if not (text_eq app.source_type (codes "github"))
      then throw (app.name ++ codes ": source " ++ app.source_type ++ codes " is not migrated yet")
      else do
        provider ← env h (codes "VEXDOCK_GIT_PROVIDER")
        pure (
            plain (string (codes "name") app.name)
            ∷ plain (string (codes "provider") (codes "github"))
            ∷ plain (string (codes "git_provider_id") provider)
            ∷ plain (codes "owner", or_null app.owner)
            ∷ plain (codes "repository", or_null app.repository)
            ∷ plain (codes "branch", or_null app.branch)
            ∷ plain (string (codes "build_path") (or_empty app.build_path))
            ∷ [])

  module _ (t : Target) where
    unfoldable pub create_domain : Text → DokployDomain → M (Unit {0})
    create_domain service_name domain =
        if is_subpath domain.path
        then note_path domain.host (or_empty domain.path) service_name
        else do
          vexdock_api h ignored post (codes "/api/domains") (
              plain (string (codes "project_id") t.project_id)
              ∷ plain (string (codes "environment_id") t.environment_id)
              ∷ plain (string (codes "service") service_name)
              ∷ plain (string (codes "hostname") domain.host)
              ∷ plain (codes "container_port", num (port_or_http domain.port))
              ∷ plain (codes "https_enabled", bool domain.https)
              ∷ plain (codes "redirect_https", bool domain.https)
              ∷ [])
          pure tt

    unfoldable pub create_domains : Text → List DokployDomain → M (Unit {0})
    create_domains service_name domains = each domains (create_domain service_name)

    unfoldable pub create_mount : DokployApp → DokployMount → M Text
    create_mount app mount = do
      volume ← expect (mounted mount) (
          app.name
          ++ codes ": only named volume mounts are migrated, not "
          ++ mount.kind
          ++ codes " at "
          ++ mount.mount_path)
      note_copy volume (t.volume_prefix ++ volume)
      pure (volume ++ b':' ∷ mount.mount_path)

    unfoldable pub create_port : Text → DokployPort → M (Unit {0})
    create_port id port = do
      vexdock_api h ignored post (service_path id (codes "/ports")) (
          plain (codes "published", num port.published_port)
          ∷ plain (codes "target", num port.target_port)
          ∷ plain (string (codes "protocol") port.protocol)
          ∷ [])
      pure tt

    unfoldable pub create_app : DokployApp → M (Unit {0})
    create_app app = do
      require
          (text_eq app.build_type (codes "dockerfile") || text_eq app.source_type (codes "docker"))
          (app.name
            ++ codes ": build type "
            ++ app.build_type
            ++ codes " has no vexdock equivalent")
      require (not (has_text app.build_args))
          (app.name ++ codes ": build args have no vexdock equivalent")
      body ← app_source app
      answer ← vexdock_api h service post (services_path t) body
      mounts ← collect app.mounts (create_mount app)
      created ← expect answer undefined_read
      vexdock_api h ignored patch (service_path created.id []) (
          plain (string (codes "dockerfile") (or_empty app.dockerfile))
          ∷ plain (string (codes "mounts") (join 10 mounts))
          ∷ [])
      each app.ports (create_port created.id)
      put_variables h (service_path created.id (codes "/variables")) app.env
      create_domains created.compose_service_name app.domains

    unfoldable pub raw_fragment : Fields → M Text
    raw_fragment body = do
      note_networks (get_field (codes "networks") body)
      pure (trim_lines (h.yaml_stringify (raw_fields body)))

    unfoldable pub create_compose_service : DokployCompose → Text × Fields → M (Unit {0})
    create_compose_service compose (service_name, body) = do
      fragment ← raw_fragment body
      answer ← vexdock_api h service post (services_path t) (
          plain (string (codes "name") service_name)
          ∷ plain (string (codes "provider") (codes "raw"))
          ∷ plain (string (codes "compose_fragment") fragment)
          ∷ [])
      volumes ← expect (named_volumes body) undefined_read
      each volumes
          λ volume. note_copy (compose.app_name ++ b'_' ∷ volume) (t.volume_prefix ++ volume)
      created ← expect answer undefined_read
      create_domains created.compose_service_name (serves service_name compose.domains)

    unfoldable pub create_compose : DokployCompose → M (Unit {0})
    create_compose compose = do
      require (text_eq compose.source_type (codes "raw"))
          (compose.name ++ codes ": only pasted compose files are migrated")
      services ← expect (h.yaml_parse compose.compose_file) (codes "the compose file is not YAML")
      put_variables h
          (codes "/api/projects/"
            ++ t.project_id
            ++ codes "/variables?environment="
            ++ t.environment_id)
          compose.env
      each services (create_compose_service compose)
