-- ===== src/Api/Types/Projects.antt =====
-- The types of apps/web/src/lib/api.ts for projects, their environments, deployments and domains.
use vexdock.Base.{Bool, Option, List}
use vexdock.Text.{Text}
use vexdock.Api.Call.{Number}

pub record User : Type 0 where
  pub id : Text
  pub email : Text
  pub name : Text

pub data DeploymentStatus : Type 0 where
  queued running success failed cancelled : DeploymentStatus

pub record Deployment : Type 0 where
  pub id : Text
  pub project_id : Text
  pub environment_id : Text
  pub number : Number
  pub service_name : Text
  pub commit_sha : Text
  pub branch : Text
  pub status : DeploymentStatus
  pub trigger : Text
  pub created_by : Text
  pub error : Text
  pub started_at : Text
  pub finished_at : Text
  pub created_at : Text

pub record DeploymentStep : Type 0 where
  pub id : Text
  pub deployment_id : Text
  pub position : Number
  pub name : Text
  pub status : DeploymentStatus
  pub output : Text
  pub started_at : Text
  pub finished_at : Text

pub data CertificateSource : Type 0 where
  letsencrypt uploaded : CertificateSource

pub record Domain : Type 0 where
  pub id : Text
  pub project_id : Text
  pub environment_id : Text
  pub service_id : Text
  pub hostname : Text
  pub container_port : Number
  pub https_enabled : Bool
  pub redirect_https : Bool
  pub certificate_source : CertificateSource
  pub created_at : Text
  pub updated_at : Text

pub record Environment : Type 0 where
  pub id : Text
  pub project_id : Text
  pub name : Text
  pub slug : Text
  pub branch : Text
  pub compose_project_name : Text
  pub is_default : Bool
  pub created_at : Text
  pub updated_at : Text

pub record Project : Type 0 where
  pub id : Text
  pub name : Text
  pub slug : Text
  pub compose_project_name : Text
  pub tags : List Text
  pub created_at : Text
  pub updated_at : Text
  pub service_count : Number
  pub running_count : Number
  pub errored_count : Number
  pub errored_environment : Option Text
  pub database_count : Number
  pub compose_count : Number
  pub domains : List Domain
  pub latest_deployment : Option Deployment
  pub environments : List Environment
