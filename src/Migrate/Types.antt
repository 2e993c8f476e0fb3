-- ===== src/Migrate/Types.antt =====
-- The types of scripts/migrate-dokploy.ts, the requests that it sends and the answers it expects.
use vexdock.Base.{ℕ, Bool, Option, List}
use vexdock.Text.{Text}

pub record DokployDomain : Type 0 where
  pub host : Text
  pub path : Option Text
  pub port : Option ℕ
  pub https : Bool
  pub service_name : Option Text

pub record DokployMount : Type 0 where
  pub kind : Text
  pub volume_name : Option Text
  pub mount_path : Text

pub record DokployPort : Type 0 where
  pub published_port : ℕ
  pub target_port : ℕ
  pub protocol : Text

pub record DokployApp : Type 0 where
  pub application_id : Text
  pub name : Text
  pub source_type : Text
  pub build_type : Text
  pub owner : Option Text
  pub repository : Option Text
  pub branch : Option Text
  pub build_path : Option Text
  pub dockerfile : Option Text
  pub docker_image : Option Text
  pub env : Option Text
  pub build_args : Option Text
  pub domains : List DokployDomain
  pub mounts : List DokployMount
  pub ports : List DokployPort

pub record DokployCompose : Type 0 where
  pub compose_id : Text
  pub name : Text
  pub app_name : Text
  pub source_type : Text
  pub compose_file : Text
  pub env : Option Text
  pub domains : List DokployDomain

pub record DokployPostgres : Type 0 where
  pub postgres_id : Text
  pub name : Text
  pub app_name : Text
  pub docker_image : Text
  pub database_name : Text
  pub database_user : Text
  pub database_password : Text
  pub external_port : Option ℕ

-- Of the databases that are not migrated only the number counts.
pub record DokployEnvironment : Type 0 where
  pub environment_id : Text
  pub applications : List Text
  pub compose : List Text
  pub postgres : List Text
  pub mysql : ℕ
  pub mariadb : ℕ
  pub mongo : ℕ
  pub redis : ℕ
  pub libsql : ℕ

pub record DokployProject : Type 0 where
  pub name : Text
  pub environments : List DokployEnvironment

pub record VexdockEnvironment : Type 0 where
  pub id : Text
  pub compose_project_name : Text
  pub is_default : Bool

pub record VexdockProject : Type 0 where
  pub id : Text
  pub environments : List VexdockEnvironment

pub record VexdockService : Type 0 where
  pub id : Text
  pub compose_service_name : Text

pub record ExecResult : Type 0 where
  pub exit_code : ℕ
  pub output : Text

pub record DeployStatus : Type 0 where
  pub id : Text
  pub status : Text

pub record VolumeCopy : Type 0 where
  pub from : Text
  pub to : Text

pub record DatabaseDump : Type 0 where
  pub service_id : Text
  pub name : Text
  pub port : ℕ

-- What `readDokployProject` returns.
pub record Source : Type 0 where
  pub environment_id : Text
  pub apps : List DokployApp
  pub composes : List DokployCompose
  pub postgres : List DokployPostgres

-- The JSON values that occur in a request body, to the depth at which they occur.
pub data Scalar : Type 0 where
  null : Scalar
  bool : Bool → Scalar
  num : ℕ → Scalar
  str : Text → Scalar

pub data Json : Type 0 where
  scalar : Scalar → Json
  object : List (Text × Scalar) → Json
  array : List (List (Text × Scalar)) → Json

abbrev pub Body : Type 0
Body = List (Text × Json)

pub data Method : Type 0 where
  get post put patch delete : Method

-- One request: of Dokploy by procedure and input, of vexdock by path and body.
pub data Call : Type 0 where
  to_dokploy : Method → Text → Body → Call
  to_vexdock : Method → Text → Body → Call

-- The type argument of `dokploy<T>` and `vexdock<T>`.
pub data Shape : Type 0 where
  all_projects one_app one_compose one_postgres address exporter ignored : Shape
  project service exec_result deploy deployment : Shape

abbrev pub Payload : Shape → Type 0
Payload all_projects = List DokployProject
Payload one_app = DokployApp
Payload one_compose = DokployCompose
Payload one_postgres = DokployPostgres
Payload address = Text
Payload exporter = Text
Payload ignored = Unit {0}
Payload project = VexdockProject
Payload service = VexdockService
Payload exec_result = ExecResult
Payload deploy = DeployStatus
Payload deployment = Text

pub record Response (s : Shape) : Type 0 where
  pub status : ℕ
  pub text : Text
  pub json : Payload s

-- `fetch` rejects, or resolves to a response.
pub data Answer (s : Shape) : Type 0 where
  rejected : Text → Answer s
  resolved : Response s → Answer s

-- YAML values, as `Bun.YAML.parse` returns them.
mutual
  pub data Yaml : Type 0 where
    nothing : Yaml
    flag : Bool → Yaml
    number : ℕ → Yaml
    text : Text → Yaml
    sequence : Items → Yaml
    mapping : Fields → Yaml

  pub data Items : Type 0 where
    nil : Items
    item : Yaml → Items → Items

  pub data Fields : Type 0 where
    end : Fields
    field : Text → Yaml → Fields → Fields
