-- ===== src/Transfer/Tests.antt =====
-- Imports of apps/web/src/components/import-services-form.tsx. The manager of these examples seeds
-- a password, and refuses to save variables.
use vexdock.Base.{
  ◌≡◌, ◌⊎◌, refl, inl, inr, true, false, Option, none, some, List, [], ◌∷◌, ◌++◌, ℕ, suc,
}
use vexdock.Text.{Text, codes, trim, trim_start, trim_end, is_space}
use vexdock.Dotenv.Vars.{EnvVar}
use vexdock.Api.Call.{Number}
use vexdock.Api.Projects.{ProjectCall, ProjectAnswer, create_service}
use vexdock.Api.Services.{ServiceCall, ServiceAnswer, service_variables}
use vexdock.Api.Types.Services.{Service, application, BuildType, from_image, git, no_credential}
use vexdock.Transfer.Decode.{PortableService, decode_export, refused, is_git_provider}
use vexdock.Transfer.Merge.{
  Variable, find_index, set_elem, merge_one, merge_all, or_none, merge_env,
}
use vexdock.Transfer.Merged.{lookup, merged_row, merge_env-lookup}
use vexdock.Transfer.Import.{Manager, failed, import_all, importable, withheld_secrets}
use vexdock.Transfer.Imported.{Report, import_all-Report}

abbrev password : Text
password = codes "PASSWORD"

abbrev seeded : List EnvVar
seeded = record { key = password; value = codes "s3cret"; is_secret = true; updated_at = [] } ∷ []

-- An export that withholds the password.
abbrev withheld : Option (List Variable)
withheld = some (
    record { key = password; value = []; is_secret = true }
    ∷ record { key = codes "PORT"; value = codes "80"; is_secret = false }
    ∷ [])

port_added :
    merge_env seeded withheld
    ≡ seeded
      ++ record { key = codes "PORT"; value = codes "80"; is_secret = false; updated_at = [] } ∷ []
unfolding merge_env merge_all merge_one find_index set_elem
port_added = refl

merge_env-lookup_example :
    lookup password (merge_env seeded withheld)
    ≡ merged_row password (lookup password seeded) (or_none withheld)
merge_env-lookup_example = merge_env-lookup password seeded withheld

abbrev database : PortableService
database = record {
  name = codes "db";
  provider = from_image;
  repository_url = none;
  git_provider_id = none;
  owner = none;
  repository = none;
  branch = none;
  build_path = none;
  image = some (codes "postgres:17");
  engine = some (codes "postgres");
  data_path = none;
  compose_fragment = none;
  env = withheld;
}

abbrev zero_reading : Number
zero_reading = record { negative = false; digits = 0; decimals = 0 }

abbrev made : Service
made = record {
  id = codes "1";
  project_id = [];
  environment_id = [];
  compose_service_name = codes "db";
  container_name = [];
  display_name = [];
  kind = application;
  provider = from_image;
  repository_url = [];
  branch = [];
  build_path = [];
  credential_kind = no_credential;
  git_provider_id = [];
  owner = [];
  repository = [];
  image = [];
  engine = [];
  data_path = [];
  compose_fragment = [];
  auto_deploy = false;
  prune_build_cache = false;
  build_type = BuildType.dockerfile;
  dockerfile = [];
  build_target = [];
  output_dir = [];
  mounts = [];
  registry_url = [];
  registry_username = [];
  created_at = [];
  updated_at = [];
  container_id = [];
  state = [];
  status = [];
  running_image = [];
  published_ports = [];
  health = [];
  restart_count = zero_reading;
  created_unix = zero_reading;
  cpu_percent = zero_reading;
  memory_usage = zero_reading;
}

abbrev project_answer : (c : ProjectCall) → Text ⊎ ProjectAnswer c
project_answer (create_service _ _ _) = inr made
project_answer _ = inl (codes "Not found")

abbrev service_answer : (c : ServiceCall) → Text ⊎ ServiceAnswer c
service_answer (service_variables _) = inr seeded
service_answer _ = inl (codes "Read only.")

-- The state counts the calls.
abbrev read_only : Manager ℕ
read_only = record {
  on_project = λ s c. (suc s, project_answer c);
  on_service = λ s c. (suc s, service_answer c);
}

stopped_import : import_all read_only (codes "p1") none (database ∷ database ∷ []) 0 ≡ (
  3,
  failed
      (codes "db was created without its variables: Read only. Paste them in its Environment tab."),
)
unfolding import_all
stopped_import = refl

import_all-Report_example :
    Report read_only
      (codes "p1")
      none
      (database ∷ database ∷ [])
      0
      (import_all read_only (codes "p1") none (database ∷ database ∷ []) 0)
import_all-Report_example =
    import_all-Report read_only (codes "p1") none (database ∷ database ∷ []) 0

taken_test :
    (importable (codes "db" ∷ []) [] (database ∷ []) ≡ [])
    × (withheld_secrets (database ∷ []) ≡ true)
unfolding importable withheld_secrets
taken_test = (refl, refl)

blank_test : decode_export (λ _. none) (codes "  ") ≡ refused (codes "empty")
unfolding decode_export trim trim_start trim_end is_space
blank_test = refl

provider_test : (is_git_provider git ≡ true) × (is_git_provider from_image ≡ false)
unfolding is_git_provider
provider_test = (refl, refl)
