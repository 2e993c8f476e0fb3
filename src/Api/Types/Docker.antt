-- ===== src/Api/Types/Docker.antt =====
-- The types of apps/web/src/lib/api.ts for containers, images, volumes and networks.
use vexdock.Base.{Bool, Option, List}
use vexdock.Text.{Text}
use vexdock.Api.Call.{Number}
use vexdock.Api.Types.Services.{HostPort}

pub record ContainerSummary : Type 0 where
  pub id : Text
  pub names : List Text
  pub image : Text
  pub state : Text
  pub status : Text
  pub created : Number
  pub labels : List (Text × Text)
  pub managed : Bool
  pub project : Text
  pub service : Text
  pub networks : Option (List Text)
  pub ports : List HostPort
  pub cpu_percent : Number
  pub memory_usage : Number
  pub memory_limit : Number
  pub cpu_series : Option (List Number)

pub data ContainerAction : Type 0 where
  start_it stop_it restart_it remove_it : ContainerAction

pub record ImageContainer : Type 0 where
  pub id : Text
  pub name : Text

pub record ImageSummary : Type 0 where
  pub id : Text
  pub repo_tags : Option (List Text)
  pub created : Number
  pub size : Number
  pub containers : List ImageContainer

pub record VolumeSummary : Type 0 where
  pub name : Text
  pub project : Text
  pub driver : Text
  pub created_at : Text
  pub size : Number
  pub ref_count : Number

pub record NetworkContainer : Type 0 where
  pub id : Text
  pub name : Text
  pub ipv4 : Text

pub record NetworkSummary : Type 0 where
  pub id : Text
  pub name : Text
  pub driver : Text
  pub scope : Text
  pub subnets : List Text
  pub labels : Option (List (Text × Text))
  pub containers : List NetworkContainer

pub record CleanupPreview : Type 0 where
  pub unused_images : Number
  pub build_cache : Number
  pub stopped_containers : Number
  pub unused_volumes : Number
  pub layers_size : Number
