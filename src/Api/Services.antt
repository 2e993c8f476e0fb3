-- ===== src/Api/Services.antt =====
-- Calls of apps/web/src/lib/api.ts: one service, its studio and its metrics.
use mathlib.Core.Option
use vexdock.Base.{Bool, Option, List, some, [], ◌∷◌, ◌++◌}
use vexdock.Text.{Text, codes}
use vexdock.Api.Browser.{Browser}
use vexdock.Api.Call.{
  Call, Ignored, Number, bare, delete, get, patch, post, put, search_params, sends, set_given,
}
use vexdock.Api.Projects.{Done, Variables}
use vexdock.Api.Types.Projects.{Deployment}
use vexdock.Api.Types.Services.{BuildType, CredentialKind, Service, ServiceProvider, TaskShell}
use vexdock.Api.Types.Studio.{
  DatabaseConnection, StudioChanges, StudioFilter, StudioOrder, asc, desc, StudioResult, StudioRows,
  StudioRowsQuery, StudioSchema,
}
use vexdock.Api.Types.System.{
  MetricWindow, minutes_30, hour_1, hours_6, hours_24, days_7, ServicePoint,
}
use vexdock.Dotenv.Vars.{EnvVar}

abbrev pub order_text : StudioOrder → Text
order_text asc = codes "asc"
order_text desc = codes "desc"

abbrev pub condition_params : Browser → Option (List StudioFilter) → List (Text × Text)
condition_params b (some (f ∷ fs)) = (codes "where", b.conditions_json (f ∷ fs)) ∷ []
condition_params b _ = []

unfoldable pub rows_query : Browser → StudioRowsQuery → Text
rows_query b q = search_params b.encode_form (
    (codes "schema", q.schema) ∷ (codes "table", q.table) ∷ set_given (codes "sort") q.sort
    ++ set_given (codes "order") (Option.map order_text q.order)
    ++ set_given (codes "limit") (Option.map b.number_text q.limit)
    ++ set_given (codes "offset") (Option.map b.number_text q.offset)
    ++ condition_params b q.conditions)

abbrev pub window_text : MetricWindow → Text
window_text minutes_30 = codes "30m"
window_text hour_1 = codes "1h"
window_text hours_6 = codes "6h"
window_text hours_24 = codes "24h"
window_text days_7 = codes "7d"

pub record ServiceChange : Type 0 where
  pub display_name : Option Text
  pub provider : Option ServiceProvider
  pub repository_url : Option Text
  pub branch : Option Text
  pub build_path : Option Text
  pub credential_kind : Option CredentialKind
  pub credential_secret : Option Text
  pub git_provider_id : Option Text
  pub owner : Option Text
  pub repository : Option Text
  pub image : Option Text
  pub compose_fragment : Option Text
  pub auto_deploy : Option Bool
  pub prune_build_cache : Option Bool
  pub build_type : Option BuildType
  pub dockerfile : Option Text
  pub build_target : Option Text
  pub output_dir : Option Text
  pub mounts : Option Text
  pub registry_url : Option Text
  pub registry_username : Option Text
  pub registry_password : Option Text

pub record Duplicate : Type 0 where
  pub name : Text
  pub environment_id : Option Text

pub record Move : Type 0 where
  pub environment_id : Text

pub record Schemas : Type 0 where
  pub schemas : List StudioSchema

pub record Affected : Type 0 where
  pub affected : Number

pub record Statement : Type 0 where
  pub schema : Text
  pub query : Text

pub record Command : Type 0 where
  pub command : Text
  pub shell : Option TaskShell

pub record CommandResult : Type 0 where
  pub exit_code : Number
  pub output : Text

pub data ServiceAction : Type 0 where
  start_service stop_service restart_service : ServiceAction

abbrev pub action_text : ServiceAction → Text
action_text start_service = codes "start"
action_text stop_service = codes "stop"
action_text restart_service = codes "restart"

-- The members of `api`.
pub data ServiceCall : Type 0 where
  service : Text → ServiceCall
  update_service : Text → ServiceChange → ServiceCall
  delete_service : Text → ServiceCall
  duplicate_service : Text → Duplicate → ServiceCall
  move_service : Text → Text → ServiceCall
  service_database : Text → ServiceCall
  studio_schema : Text → ServiceCall
  studio_rows : Text → StudioRowsQuery → ServiceCall
  studio_changes : Text → StudioChanges → ServiceCall
  studio_query : Text → Statement → ServiceCall
  service_variables : Text → ServiceCall
  save_service_variables : Text → List EnvVar → ServiceCall
  service_metrics : Text → MetricWindow → ServiceCall
  deploy_service : Text → ServiceCall
  service_action : Text → ServiceAction → ServiceCall
  exec : Text → Command → ServiceCall

-- The type that `request` is told to answer with.
abbrev pub ServiceAnswer : ServiceCall → Type 0
ServiceAnswer (service _) = Service
ServiceAnswer (update_service _ _) = Service
ServiceAnswer (delete_service _) = Ignored
ServiceAnswer (duplicate_service _ _) = Service
ServiceAnswer (move_service _ _) = Service
ServiceAnswer (service_database _) = DatabaseConnection
ServiceAnswer (studio_schema _) = Schemas
ServiceAnswer (studio_rows _ _) = StudioRows
ServiceAnswer (studio_changes _ _) = Affected
ServiceAnswer (studio_query _ _) = StudioResult
ServiceAnswer (service_variables _) = List EnvVar
ServiceAnswer (save_service_variables _ _) = Ignored
ServiceAnswer (service_metrics _ _) = List ServicePoint
ServiceAnswer (deploy_service _) = Deployment
ServiceAnswer (service_action _ _) = Done
ServiceAnswer (exec _ _) = CommandResult

-- What is sent as JSON.
abbrev pub ServiceSent : ServiceCall → Type 0
ServiceSent (update_service _ _) = ServiceChange
ServiceSent (duplicate_service _ _) = Duplicate
ServiceSent (move_service _ _) = Move
ServiceSent (studio_changes _ _) = StudioChanges
ServiceSent (studio_query _ _) = Statement
ServiceSent (save_service_variables _ _) = Variables
ServiceSent (exec _ _) = Command
ServiceSent _ = Ignored

unfoldable pub service_call : Browser → (c : ServiceCall) → Call (ServiceSent c)
service_call b (service id) = bare get (codes "/api/services/" ++ id)
service_call b (update_service id body) = sends patch (codes "/api/services/" ++ id) body
service_call b (delete_service id) = bare delete (codes "/api/services/" ++ id)
service_call b (duplicate_service id body) =
    sends post (codes "/api/services/" ++ id ++ codes "/duplicate") body
service_call b (move_service id env) =
    sends post (codes "/api/services/" ++ id ++ codes "/move") (record { environment_id = env })
service_call b (service_database id) = bare get (codes "/api/services/" ++ id ++ codes "/database")
service_call b (studio_schema id) = bare get (codes "/api/services/" ++ id ++ codes "/studio")
service_call b (studio_rows id query) =
    bare get (codes "/api/services/" ++ id ++ codes "/studio/rows?" ++ (rows_query b query))
service_call b (studio_changes id body) =
    sends post (codes "/api/services/" ++ id ++ codes "/studio/changes") body
service_call b (studio_query id body) =
    sends post (codes "/api/services/" ++ id ++ codes "/studio/query") body
service_call b (service_variables id) =
    bare get (codes "/api/services/" ++ id ++ codes "/variables")
service_call b (save_service_variables id vars) =
    sends put (codes "/api/services/" ++ id ++ codes "/variables") (record { variables = vars })
service_call b (service_metrics id window) =
    bare get (codes "/api/services/" ++ id ++ codes "/metrics?window=" ++ (window_text window))
service_call b (deploy_service id) = bare post (codes "/api/services/" ++ id ++ codes "/deploy")
service_call b (service_action id action) =
    bare post (codes "/api/services/" ++ id ++ codes "/" ++ (action_text action))
service_call b (exec id body) = sends post (codes "/api/services/" ++ id ++ codes "/exec") body
