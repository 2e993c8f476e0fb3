-- ===== src/Bulk/Tests.antt =====
-- Actions of apps/web/src/components/service-bulk-actions.tsx on two services. The manager of these
-- examples keeps the calls, and refuses to delete.
use vexdock.Base.{◌≡◌, refl, false, Option, none, some, List, [], ◌∷◌, ◌++◌, ◌-◌, length}
use vexdock.Text.{Text, codes, decimal}
use vexdock.Api.Call.{Number}
use vexdock.Api.Services.{ServiceCall, delete_service, service_action, start_service}
use vexdock.Api.Types.Services.{Service, application, BuildType, from_image, no_credential}
use vexdock.Bulk.Names.{has, free_name, free_suffix}
use vexdock.Bulk.Free.{IsFreeName, free_name-found}
use vexdock.Bulk.Run.{
  Manager, start, delete, finished, failed, call_for, run_rows, run, targets, chosen,
}
use vexdock.Bulk.Ran.{Report, run-Report, names}

abbrev zero_reading : Number
zero_reading = record { negative = false; digits = 0; decimals = 0 }

abbrev pub service_of : Text → Text → Text → Service
service_of id name state = record {
  id = id;
  project_id = [];
  environment_id = [];
  compose_service_name = name;
  container_name = [];
  display_name = [];
  kind = application;
  provider = from_image;
  repository_url = [];
  branch = [];
  build_path = [];
  credential_kind = no_credential;
  git_provider_id = [];
  owner = [];
  repository = [];
  image = [];
  engine = [];
  data_path = [];
  compose_fragment = [];
  auto_deploy = false;
  prune_build_cache = false;
  build_type = BuildType.dockerfile;
  dockerfile = [];
  build_target = [];
  output_dir = [];
  mounts = [];
  registry_url = [];
  registry_username = [];
  created_at = [];
  updated_at = [];
  container_id = [];
  state = state;
  status = [];
  running_image = [];
  published_ports = [];
  health = [];
  restart_count = zero_reading;
  created_unix = zero_reading;
  cpu_percent = zero_reading;
  memory_usage = zero_reading;
}

abbrev web : Service
web = service_of (codes "1") (codes "web") (codes "running")

abbrev web_copy : Service
web_copy = service_of (codes "2") (codes "web-copy") []

abbrev both : List Text
both = codes "1" ∷ codes "2" ∷ []

abbrev refusal : ServiceCall → Option Text
refusal (delete_service _) = some (codes "In use.")
refusal _ = none

abbrev strict : Manager (List ServiceCall)
strict calls c = (calls ++ c ∷ [], refusal c)

second_copy : free_name (codes "web") (names (web ∷ web_copy ∷ [])) ≡ some (codes "web-copy-2")
unfolding free_name free_suffix decimal
second_copy = refl

free_name-found_example :
    (name : Text) × (free_name (codes "web") (names (web ∷ web_copy ∷ [])) ≡ some name)
    × (has name (names (web ∷ web_copy ∷ [])) ≡ false)
    × IsFreeName (codes "web") (names (web ∷ web_copy ∷ [])) name
free_name-found_example = free_name-found (codes "web") (names (web ∷ web_copy ∷ []))

-- A service without a container is skipped.
start_run :
    run strict start (web ∷ web_copy ∷ []) both []
    ≡ (service_action (codes "1") start_service ∷ [], finished 1 1)
unfolding run run_rows call_for
start_run = refl

delete_run : (run strict delete (web ∷ web_copy ∷ []) both []).1 ≡ failed (codes "web: In use.")
unfolding run run_rows call_for
delete_run = refl

run-Report_example :
    Report strict start
      (length (chosen (web ∷ web_copy ∷ []) both)
        - length (targets start (chosen (web ∷ web_copy ∷ []) both)))
      (targets start (chosen (web ∷ web_copy ∷ []) both))
      []
      (names (web ∷ web_copy ∷ []))
      []
      (run strict start (web ∷ web_copy ∷ []) both [])
run-Report_example = run-Report strict start (web ∷ web_copy ∷ []) both [] refl
