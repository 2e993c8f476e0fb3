-- ===== src/Migrate/Run/Tests.antt =====
-- A run of scripts/migrate-dokploy.ts against servers that answer as they should, and the theorems
-- on it.
use vexdock.Base.{◌≡◌, ◌⊎◌, refl, true, none, some, [], ◌∷◌, All}
use vexdock.Text.{
  Text, codes, is_space, trim_start, trim_end, trim, index_of, split, join, replace_text, decimal,
}
use vexdock.Migrate.Types.{
  DokployApp, DokployProject, Shape, all_projects, one_app, one_compose, one_postgres, address,
  exporter, ignored, project, service, exec_result, deploy, deployment, Payload, resolved,
  VolumeCopy,
}
use vexdock.Migrate.World.{
  Host, initial, ok, pure, throw, ◌>>=◌, modify, gets, each, collect, fetch, dokploy, vexdock_api,
  vexdock_json, env,
}
use vexdock.Migrate.Fragment.{named_volumes}
use vexdock.Migrate.Variables.{put_variables, read_variables, dotenv_value, unwrap, rename_hosts}
use vexdock.Migrate.Create.{
  note_path, note_networks, note_copy, default_environment, app_source, create_domain,
  create_domains, create_mount, create_port, create_app, create_compose,
}
use vexdock.Migrate.Postgres.{note_dump, create_postgres}
use vexdock.Migrate.Source.{read_dokploy_project}
use vexdock.Migrate.Create.Reads.{ReadsDokploy}
use vexdock.Migrate.Volumes.{
  join_text, json_chars, try_finally, await_deploy, deploy_and_wait, pull_volume, delete_exporter,
  copy_volume, restore_dump,
}
use vexdock.Migrate.Volumes.Exporter.{delete_call, try_finally-delete}
use vexdock.Migrate.Volumes.Owned.{OwnWrites}
use vexdock.Migrate.Run.{
  Prepared, prepare, stop_app, stop_compose, stop_postgres, stop_all, move_data, cut_over, migrate,
}
use vexdock.Migrate.Run.Order.{prepare-reads, migrate-OwnWrites}
use vexdock.Migrate.Run.Stops.{all_stopped, Extends, cut_over-stops_first}

abbrev web : DokployApp
web = record {
  application_id = codes "a1";
  name = codes "web";
  source_type = codes "docker";
  build_type = codes "nixpacks";
  owner = none;
  repository = none;
  branch = none;
  build_path = none;
  dockerfile = none;
  docker_image = some (codes "nginx");
  env = some (codes "# app\nA=\"x\\ny\"\n");
  build_args = none;
  domains = [];
  mounts =
      record {
        kind = codes "volume";
        volume_name = some (codes "data");
        mount_path = codes "/data";
      }
      ∷ [];
  ports = [];
}

abbrev shop : DokployProject
shop = record {
  name = codes "shop";
  environments =
      record {
        environment_id = codes "e1";
        applications = codes "a1" ∷ [];
        compose = [];
        postgres = [];
        mysql = 0;
        mariadb = 0;
        mongo = 0;
        redis = 0;
        libsql = 0;
      }
      ∷ [];
}

-- What the servers answer, by the type asked for.
abbrev payload : (s : Shape) → Payload s
payload all_projects = shop ∷ []
payload one_app = web
payload one_compose = record {
  compose_id = [];
  name = [];
  app_name = [];
  source_type = [];
  compose_file = [];
  env = none;
  domains = [];
}
payload one_postgres = record {
  postgres_id = [];
  name = [];
  app_name = [];
  docker_image = [];
  database_name = [];
  database_user = [];
  database_password = [];
  external_port = none;
}
payload address = codes "10.0.0.1"
payload exporter = codes "c9"
payload ignored = tt
payload project = record {
  id = codes "p1";
  environments =
      record { id = codes "v1"; compose_project_name = codes "shop"; is_default = true } ∷ [];
}
payload service = record { id = codes "s1"; compose_service_name = codes "web" }
payload exec_result = record { exit_code = 0; output = [] }
payload deploy = record { id = codes "d1"; status = codes "running" }
payload deployment = codes "success"

abbrev servers : Host
servers = record {
  answer = λ s cs c. resolved (record { status = 200; text = []; json = payload s });
  env = λ key. some (codes "set");
  yaml_parse = λ s. none;
  yaml_stringify = λ f. [];
  random_hex = λ n cs. codes "ab";
}

-- Unfolds all of the code that the run reaches.
run_code : Unit {0}
unfolding is_space trim_start trim_end trim index_of split join replace_text decimal pure throw
    ◌>>=◌ modify gets each collect fetch dokploy vexdock_api vexdock_json env named_volumes
    put_variables read_variables dotenv_value unwrap rename_hosts note_path note_networks note_copy
    note_dump default_environment read_dokploy_project app_source create_domain create_domains
    create_mount create_port create_app create_compose create_postgres join_text json_chars
    try_finally await_deploy deploy_and_wait pull_volume delete_exporter copy_volume restore_dump
    prepare stop_app stop_compose stop_postgres stop_all move_data cut_over migrate
run_code = tt

abbrev name : Text
name = codes "shop"

run_succeeds : (migrate servers 3 (some name) initial).0 ≡ ok tt
unfolding run_code
run_succeeds = refl

run_copies :
    (migrate servers 3 (some name) initial).1.copies
    ≡ record { from = codes "data"; to = codes "shop_data" } ∷ []
unfolding run_code
run_copies = refl

abbrev prepared : Prepared
prepared = record {
  source = record { environment_id = codes "e1"; apps = web ∷ []; composes = []; postgres = [] };
  target = record {
    project_id = codes "p1";
    environment_id = codes "v1";
    volume_prefix = codes "shop_";
  };
  dokploy_ip = codes "10.0.0.1";
}

prepare-reads_example : All ReadsDokploy (prepare servers name initial).1.calls
prepare-reads_example = prepare-reads servers name

migrate-OwnWrites_example : OwnWrites servers (migrate servers 3 (some name) initial).1.calls
migrate-OwnWrites_example = migrate-OwnWrites servers 3 (some name)

cut_over-stops_first_example :
    (Extends (all_stopped prepared.source []) (cut_over servers 3 prepared initial).1.calls)
    ⊎ ((cut_over servers 3 prepared initial).1.calls
        ≡ (stop_all servers prepared.source initial).1.calls)
cut_over-stops_first_example = cut_over-stops_first servers 3 prepared initial

abbrev one_copy : VolumeCopy
one_copy = record { from = codes "data"; to = codes "shop_data" }

try_finally-delete_example :
    (try_finally
      (pull_volume servers prepared.target
        (codes "10.0.0.1")
        one_copy
        (codes "s1")
        (codes "c9")
        (codes "k")
        (codes "ab"))
      (delete_exporter servers prepared.target (codes "c9"))
      initial).1.calls
    ≡ delete_call servers prepared.target (codes "c9")
      ∷ (pull_volume servers prepared.target
          (codes "10.0.0.1")
          one_copy
          (codes "s1")
          (codes "c9")
          (codes "k")
          (codes "ab")
          initial).1.calls
try_finally-delete_example =
    try_finally-delete servers prepared.target (codes "10.0.0.1") one_copy (codes "s1") (codes "c9")
      (codes "k") (codes "ab") initial
