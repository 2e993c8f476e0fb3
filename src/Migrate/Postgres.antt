-- ===== src/Migrate/Postgres.antt =====
-- `createPostgres` in scripts/migrate-dokploy.ts.
use vexdock.Base.{ℕ, zero, suc, Option, none, some, List, [], ◌∷◌, ◌++◌, if◌then◌else◌}
use vexdock.Text.{Text, codes, text_eq, split}
use vexdock.Migrate.Types.{DokployPostgres, DatabaseDump, num, object, post, service, ignored}
use vexdock.Migrate.World.{Host, M, ◌>>=◌, ◌>>◌, modify, expect, vexdock_api, vexdock_json}
use vexdock.Migrate.Source.{string, plain}
use vexdock.Migrate.Create.{Target, second, services_path, service_path}

-- The text behind the first `:` up to the next, if it is not empty.
abbrev pub tag_of : Text → Option Text
tag_of image = second (split b':' image)

-- `!pg.externalPort`: null and 0 are one.
abbrev pub port_set : Option ℕ → Option ℕ
port_set none = none
port_set (some zero) = none
port_set (some (suc n)) = some (suc n)

-- A `Map` keeps the place of a key that is set again.
abbrev pub set_host : Text → Text → List (Text × Text) → List (Text × Text)
set_host from to [] = (from, to) ∷ []
set_host from to ((k, v) ∷ hosts) =
    if text_eq k from then (k, to) ∷ hosts else (k, v) ∷ set_host from to hosts

unfoldable pub note_dump : Text → Text → DatabaseDump → M (Unit {0})
note_dump host service_name dump = modify (λ w. record w {
  dumps = w.dumps ++ dump ∷ [];
  renamed_hosts = set_host host service_name w.renamed_hosts;
})

module _ (h : Host) (t : Target) where
  unfoldable pub create_postgres : DokployPostgres → M (Unit {0})
  create_postgres pg = do
    tag ←
        expect (tag_of pg.docker_image)
          (pg.name ++ codes ": image " ++ pg.docker_image ++ codes " has no version tag")
    port ←
        expect (port_set pg.external_port)
          (pg.name ++ codes ": set an external port in Dokploy, the dump reads through it")
    created ← vexdock_json h service post (services_path t) (
        plain (string (codes "name") pg.name)
        ∷ (
          codes "database",
          object (
              string (codes "engine") (codes "postgres")
              ∷ string (codes "version") tag
              ∷ string (codes "name") pg.database_name
              ∷ string (codes "user") pg.database_user
              ∷ string (codes "password") pg.database_password
              ∷ []),
        )
        ∷ [])
    vexdock_api h ignored post (service_path created.id (codes "/ports")) (
        plain (codes "published", num port)
        ∷ plain (codes "target", num 5432)
        ∷ plain (string (codes "protocol") (codes "tcp"))
        ∷ [])
    note_dump pg.app_name created.compose_service_name
        (record { service_id = created.id; name = pg.name; port = port })
