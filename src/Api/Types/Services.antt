-- ===== src/Api/Types/Services.antt =====
-- The types of apps/web/src/lib/api.ts for services and what is kept with them.
use vexdock.Base.{Bool, Option, List}
use vexdock.Text.{Text}
use vexdock.Api.Call.{Number}

pub data CredentialKind : Type 0 where
  no_credential with_token ssh_key : CredentialKind

pub record HostPort : Type 0 where
  pub ip : Text
  pub published : Number
  pub target : Number
  pub protocol : Text

pub data ServiceType : Type 0 where
  application database : ServiceType

pub data BuildType : Type 0 where
  dockerfile static : BuildType

pub data ServiceProvider : Type 0 where
  unconfigured github gitlab bitbucket gitea git from_image raw_fragment : ServiceProvider

pub record Service : Type 0 where
  pub id : Text
  pub project_id : Text
  pub environment_id : Text
  pub compose_service_name : Text
  pub container_name : Text
  pub display_name : Text
  pub kind : ServiceType
  pub provider : ServiceProvider
  pub repository_url : Text
  pub branch : Text
  pub build_path : Text
  pub credential_kind : CredentialKind
  pub git_provider_id : Text
  pub owner : Text
  pub repository : Text
  pub image : Text
  pub engine : Text
  pub data_path : Text
  pub compose_fragment : Text
  pub auto_deploy : Bool
  pub prune_build_cache : Bool
  pub build_type : BuildType
  pub dockerfile : Text
  pub build_target : Text
  pub output_dir : Text
  pub mounts : Text
  pub registry_url : Text
  pub registry_username : Text
  pub created_at : Text
  pub updated_at : Text
  pub container_id : Text
  pub state : Text
  pub status : Text
  pub running_image : Text
  pub published_ports : List HostPort
  pub health : Text
  pub restart_count : Number
  pub created_unix : Number
  pub cpu_percent : Number
  pub memory_usage : Number

pub record ServiceRedirect : Type 0 where
  pub id : Text
  pub service_id : Text
  pub regex : Text
  pub replacement : Text
  pub permanent : Bool
  pub created_at : Text

pub record ServiceBasicAuthUser : Type 0 where
  pub id : Text
  pub service_id : Text
  pub username : Text
  pub created_at : Text

pub data PortProtocol : Type 0 where
  tcp udp : PortProtocol

pub record ServicePort : Type 0 where
  pub id : Text
  pub service_id : Text
  pub published : Number
  pub target : Number
  pub protocol : PortProtocol
  pub created_at : Text

pub data TaskShell : Type 0 where
  sh bash : TaskShell

pub record TaskRun : Type 0 where
  pub id : Text
  pub task_id : Text
  pub started_at : Text
  pub finished_at : Text
  pub exit_code : Number
  pub output : Text

pub record ScheduledTask : Type 0 where
  pub id : Text
  pub service_id : Text
  pub service_name : Text
  pub project_id : Text
  pub project_name : Text
  pub environment_id : Text
  pub name : Text
  pub description : Text
  pub schedule : Text
  pub timezone : Text
  pub command : Text
  pub shell : TaskShell
  pub enabled : Bool
  pub created_at : Text
  pub updated_at : Text
  pub last_run : Option TaskRun
  pub next_run : Option Text

pub record TaskInput : Type 0 where
  pub name : Text
  pub description : Text
  pub schedule : Text
  pub timezone : Text
  pub command : Text
  pub shell : TaskShell
  pub enabled : Bool
