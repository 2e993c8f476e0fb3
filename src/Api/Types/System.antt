-- ===== src/Api/Types/System.antt =====
-- The types of apps/web/src/lib/api.ts for the server, its metrics, updates, settings and backups.
use vexdock.Base.{Bool, Option, List}
use vexdock.Text.{Text}
use vexdock.Api.Call.{Number}
use vexdock.Api.Types.Projects.{Deployment}

pub record SystemHost : Type 0 where
  pub docker_version : Text
  pub os : Text
  pub architecture : Text
  pub cpus : Number
  pub memory_total : Number
  pub name : Text

pub record RecentDeployment : Type 0 where
  pub deployment : Deployment
  pub project_name : Text
  pub environment_name : Text

pub record SystemInfo : Type 0 where
  pub host : SystemHost
  pub projects : Number
  pub containers : Number
  pub containers_running : Number
  pub containers_stopped : Number
  pub images : Number
  pub recent_deployments : List RecentDeployment
  pub version : Text

pub record HostStats : Type 0 where
  pub cpu_percent : Number
  pub memory_used : Number
  pub memory_total : Number
  pub disk_used : Number
  pub disk_total : Number
  pub load_average : Number

pub record ContainerStats : Type 0 where
  pub container_id : Text
  pub name : Text
  pub cpu_percent : Number
  pub memory_usage : Number
  pub memory_limit : Number
  pub memory_percent : Number
  pub network_rx : Number
  pub network_tx : Number
  pub block_read : Number
  pub block_write : Number
  pub pids : Number

pub data MetricWindow : Type 0 where
  minutes_30 hour_1 hours_6 hours_24 days_7 : MetricWindow

pub record HostPoint : Type 0 where
  pub at : Number
  pub cpu_percent : Number
  pub memory_used : Number
  pub memory_total : Number
  pub disk_used : Number
  pub disk_total : Number

pub record ServicePoint : Type 0 where
  pub at : Number
  pub cpu_percent : Number
  pub memory_usage : Number
  pub memory_limit : Number
  pub network_rx : Number
  pub network_tx : Number
  pub block_read : Number
  pub block_write : Number

pub record VersionSettings : Type 0 where
  pub beta : Bool
  pub cleanup_old_images : Bool

pub record VersionStatus : Type 0 where
  pub current : Text
  pub latest : Text
  pub update_available : Bool
  pub checked_at : Text
  pub check_error : Text
  pub release_url : Text
  pub settings : VersionSettings

pub data UpdatePhase : Type 0 where
  no_update backup pulling restarting done rolled_back : UpdatePhase

pub record UpdateState : Type 0 where
  pub phase : UpdatePhase
  pub target : Text
  pub previous : Text
  pub error : Text
  pub at : Number
  pub log : Option Text

pub record Settings : Type 0 where
  pub dashboard_domain : Text
  pub dashboard_https : Bool
  pub acme_email : Text
  pub cloudflare_token_set : Bool

pub record SettingsUpdate : Type 0 where
  pub dashboard_domain : Text
  pub dashboard_https : Bool
  pub acme_email : Text
  pub cloudflare_api_token : Option Text

pub record Backup : Type 0 where
  pub name : Text
  pub path : Text
  pub created_at : Text
  pub size_bytes : Number
  pub has_volumes : Bool

pub data HealthStatus : Type 0 where
  healthy unhealthy : HealthStatus

pub record HealthReport : Type 0 where
  pub status : HealthStatus
  pub checks : Option (List (Text × Text))
