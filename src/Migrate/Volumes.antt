-- ===== src/Migrate/Volumes.antt =====
-- How scripts/migrate-dokploy.ts moves the data: `deployAndWait`, `copyVolume`, `restoreDump`.
pub mod Exporter
pub mod Owned
pub mod Grows
use vexdock.Base.{
  ℕ, zero, suc, ◌+◌, Bool, true, false, not, ◌||◌, Option, none, some, List, [], ◌∷◌, ◌++◌, ◌==◌,
  leb, if◌then◌else◌, length, drop, map,
}
use vexdock.Text.{Text, codes, text_eq, decimal, join}
use vexdock.Migrate.Types.{
  VolumeCopy, DatabaseDump, DeployStatus, ExecResult, bool, scalar, post, get, delete, service,
  exec_result, deploy, deployment, exporter, ignored, Json,
}
use vexdock.Migrate.World.{
  Host, World, Result, ok, error, waiting, M, pure, throw, ◌>>=◌, ◌>>◌, gets, require, dokploy,
  vexdock_api, vexdock_json,
}
use vexdock.Migrate.Create.{Target, services_path, service_path}
use vexdock.Migrate.Source.{string, plain}

-- `join` with a text.
unfoldable pub join_text : Text → List Text → Text
join_text by [] = []
join_text by (s ∷ []) = s
join_text by (s ∷ t ∷ ts) = s ++ by ++ join_text by (t ∷ ts)

-- `JSON.stringify` of a text of printable ASCII.
unfoldable pub json_chars : Text → Text
json_chars [] = b'"' ∷ []
json_chars (c ∷ cs) =
    if c == b'"' || c == b'\\' then b'\\' ∷ c ∷ json_chars cs else c ∷ json_chars cs

abbrev pub is_pending : Text → Bool
is_pending status = text_eq status (codes "queued") || text_eq status (codes "running")

abbrev pub wait_forever : {A : Type 0} → M A
wait_forever w = (waiting, w)

-- `try { body } finally { last }`: `last` runs when the body has returned or thrown.
abbrev pub after_body : {A : Type 0} → Result A → M (Unit {0}) → M A
after_body (ok a) last = last >>= λ _. pure a
after_body (error message) last = last >>= λ _. throw message
after_body waiting last = wait_forever

unfoldable pub try_finally : {A : Type 0} → M A → M (Unit {0}) → M A
try_finally body last w = let (r, w') = body w in after_body r last w'

abbrev pub compose_id : Text → Text × Json
compose_id id = plain (string (codes "composeId") id)

module _ (h : Host) (t : Target) where
  -- The polling loop; `polls` bounds the rounds.
  unfoldable pub await_deploy : ℕ → Text → Text → M Text
  await_deploy zero id status = if is_pending status then wait_forever else pure status
  await_deploy (suc polls) id status =
      let more = vexdock_json h deployment get (codes "/api/deployments/" ++ id) [] >>= λ next.
      await_deploy polls id next in
      if is_pending status then more else pure status

  unfoldable pub deploy_and_wait : ℕ → Text → Text → M (Unit {0})
  deploy_and_wait polls service_id name = do
    started ← vexdock_json h deploy post (service_path service_id (codes "/deploy")) []
    status ← await_deploy polls started.id started.status
    require (text_eq status (codes "success"))
        (name ++ codes ": deploy " ++ started.id ++ codes " ended " ++ status)

  abbrev pub import_fragment : Text → Text
  import_fragment to =
      codes "image: alpine:3.22\ncommand: sleep infinity\nvolumes:\n  - "
      ++ drop (length t.volume_prefix) to
      ++ codes ":/dst\n"

  abbrev pub serve_command : Text → Text → Text
  serve_command key secret = join_text (codes " && ") (
      codes "apk add -q --no-cache openssl busybox-extras"
      ∷ (codes "mkdir -p /www/" ++ secret)
      ∷ (codes "cd /www/" ++ secret)
      ∷ (codes "tar c -C /src . | openssl enc -aes-256-cbc -pbkdf2 -pass pass:"
          ++ key
          ++ codes " -out data.enc")
      ∷ codes "sha256sum data.enc > data.sha256"
      ∷ codes "exec busybox-extras httpd -f -p 8080 -h /www"
      ∷ [])

  abbrev pub export_file : Text → Text → Text
  export_file from serve =
      codes "services:\n  export:\n    image: alpine:3.22\n    command: [\"sh\", \"-c\", "
      ++ b'"' ∷ json_chars serve
      ++ codes
          "]\n    ports:\n      - \"18080:8080\"\n    volumes:\n      - src:/src:ro\nvolumes:\n  src:\n    external: true\n    name: "
      ++ from
      ++ codes "\n"

  abbrev pub import_command : Text → Text → Text
  import_command key url = join 10 (
      codes "set -eo pipefail"
      ∷ codes "apk add -q --no-cache openssl"
      ∷ codes "cd /tmp"
      ∷ (codes "for i in $(seq 60); do wget -q -O data.sha256 "
          ++ url
          ++ codes "/data.sha256 && wget -q -O data.enc "
          ++ url
          ++ codes "/data.enc && break; sleep 5; done")
      ∷ codes "sha256sum -c data.sha256"
      ∷ (codes "openssl enc -d -aes-256-cbc -pbkdf2 -pass pass:"
          ++ key
          ++ codes " -in data.enc | tar x -C /dst")
      ∷ codes "rm data.enc data.sha256"
      ∷ codes "echo \"$(find /dst -type f | wc -l) files, $(du -sh /dst | cut -f1)\""
      ∷ [])

  -- The body of the `try`: serves the volume from Dokploy and pulls it into the importer.
  unfoldable pub pull_volume : Text → VolumeCopy → Text → Text → Text → Text → M (Unit {0})
  pull_volume address copy importer_id exporter_id key secret = do
    dokploy h ignored post (codes "compose.update") (
        compose_id exporter_id
        ∷ plain (string (codes "composeFile") (export_file copy.from (serve_command key secret)))
        ∷ plain (string (codes "sourceType") (codes "raw"))
        ∷ [])
    dokploy h ignored post (codes "compose.deploy") (compose_id exporter_id ∷ [])
    result ← vexdock_json h exec_result post (service_path importer_id (codes "/exec")) (
        plain (
          string (codes "command")
            (import_command key (codes "http://" ++ address ++ codes ":18080/" ++ secret)))
        ∷ plain (string (codes "shell") (codes "sh"))
        ∷ [])
    require (result.exit_code == 0)
        (copy.to ++ codes ": import exited " ++ decimal result.exit_code ++ 10 ∷ result.output)

  -- The block `finally`.
  unfoldable pub delete_exporter : Text → M (Unit {0})
  delete_exporter id = do
    dokploy h ignored post (codes "compose.delete")
        (compose_id id ∷ plain (codes "deleteVolumes", bool false) ∷ [])
    pure tt

  -- `source_environment` is Dokploy's environment, `address` its IP address.
  unfoldable pub copy_volume : ℕ → Text → Text → VolumeCopy → M (Unit {0})
  copy_volume polls source_environment address copy = do
    key ← gets (λ w. h.random_hex 32 w.calls)
    secret ← gets (λ w. h.random_hex 16 w.calls)
    importer ← vexdock_json h service post (services_path t) (
        plain (string (codes "name") (codes "vexdock-import"))
        ∷ plain (string (codes "provider") (codes "raw"))
        ∷ plain (string (codes "compose_fragment") (import_fragment copy.to))
        ∷ [])
    deploy_and_wait polls importer.id (codes "vexdock-import")
    exporter_id ← dokploy h exporter post (codes "compose.create") (
        plain (string (codes "name") (codes "vexdock-export"))
        ∷ plain (string (codes "environmentId") source_environment)
        ∷ plain (string (codes "composeType") (codes "docker-compose"))
        ∷ [])
    try_finally (pull_volume address copy importer.id exporter_id key secret)
        (delete_exporter exporter_id)
    vexdock_api h ignored delete (service_path importer.id []) []
    pure tt

  abbrev pub restore_command : Text → ℕ → Text
  restore_command address port = join 10 (
      codes "set -o pipefail"
      ∷ codes "until pg_isready -q -h 127.0.0.1; do sleep 1; done"
      ∷ codes "export PGPASSWORD=\"$POSTGRES_PASSWORD\""
      ∷ (codes "pg_dump -h "
          ++ address
          ++ codes " -p "
          ++ decimal port
          ++ codes
              " -U \"$POSTGRES_USER\" -d \"$POSTGRES_DB\" | psql -q -o /dev/null -v ON_ERROR_STOP=1 -h 127.0.0.1 -U \"$POSTGRES_USER\" -d \"$POSTGRES_DB\"")
      ∷ [])

  unfoldable pub restore_dump : ℕ → Text → DatabaseDump → M (Unit {0})
  restore_dump polls address dump = do
    deploy_and_wait polls dump.service_id dump.name
    result ←
        vexdock_json h exec_result post (service_path dump.service_id (codes "/exec"))
          (plain (string (codes "command") (restore_command address dump.port)) ∷ [])
    require (result.exit_code == 0)
        (dump.name ++ codes ": restore exited " ++ decimal result.exit_code ++ 10 ∷ result.output)
