-- ===== src/Api/Projects.antt =====
-- Calls of apps/web/src/lib/api.ts: projects, environments and their services.
use vexdock.Base.{Bool, Option, List, none, some, [], ◌∷◌, ◌++◌}
use vexdock.Text.{Text, codes}
use vexdock.Api.Browser.{Browser}
use vexdock.Api.Call.{
  Call, Ignored, bare, delete, environment_query, flag_text, get, patch, post, put, search_params,
  sends, set_filled,
}
use vexdock.Api.Types.Projects.{Deployment, Domain, Environment, Project, User}
use vexdock.Api.Types.Services.{CredentialKind, Service, ServiceProvider}
use vexdock.Dotenv.Vars.{EnvVar}

-- `${environmentId ? `&environment=${environmentId}` : ''}`
abbrev pub and_environment : Option Text → Text
and_environment none = []
and_environment (some []) = []
and_environment (some (c ∷ cs)) = codes "&environment=" ++ c ∷ cs

pub record Me : Type 0 where
  pub user : User

pub record Done : Type 0 where
  pub ok : Bool

pub record NewProject : Type 0 where
  pub name : Text
  pub tags : Option (List Text)

pub record ProjectChange : Type 0 where
  pub name : Option Text
  pub tags : Option (List Text)

pub record Variables : Type 0 where
  pub variables : List EnvVar

pub record NewEnvironment : Type 0 where
  pub name : Text
  pub branch : Option Text

pub record EnvironmentChange : Type 0 where
  pub name : Option Text
  pub branch : Option Text

pub data SqldNode : Type 0 where
  primary replica standalone : SqldNode

pub record NewDatabase : Type 0 where
  pub engine : Text
  pub version : Option Text
  pub name : Option Text
  pub user : Option Text
  pub password : Option Text
  pub image : Option Text
  pub data_path : Option Text
  pub sqld_node : Option SqldNode
  pub sqld_primary_url : Option Text
  pub sqld_namespaces : Option Bool

pub record NewService : Type 0 where
  pub name : Text
  pub container_name : Option Text
  pub provider : ServiceProvider
  pub repository_url : Option Text
  pub branch : Option Text
  pub build_path : Option Text
  pub credential_kind : Option CredentialKind
  pub credential_secret : Option Text
  pub git_provider_id : Option Text
  pub owner : Option Text
  pub repository : Option Text
  pub image : Option Text
  pub compose_fragment : Option Text
  pub database : Option NewDatabase

pub record TemplateChoice : Type 0 where
  pub slug : Text
  pub hostname : Text

pub record Installed : Type 0 where
  pub services : List Service
  pub domain : Option Domain
  pub warning : Option Text

pub record ExportBlob : Type 0 where
  pub payload : Text
  pub secrets : Bool

-- The members of `api`.
pub data ProjectCall : Type 0 where
  me : ProjectCall
  projects : ProjectCall
  project : Text → ProjectCall
  create_project : NewProject → ProjectCall
  update_project : Text → ProjectChange → ProjectCall
  delete_project : Text → ProjectCall
  deploy : Text → Option Text → ProjectCall
  stop_project : Text → Option Text → ProjectCall
  project_variables : Text → ProjectCall
  save_project_variables : Text → List EnvVar → ProjectCall
  environments : Text → ProjectCall
  create_environment : Text → NewEnvironment → ProjectCall
  update_environment : Text → EnvironmentChange → ProjectCall
  delete_environment : Text → Bool → ProjectCall
  environment_variables : Text → ProjectCall
  save_environment_variables : Text → List EnvVar → ProjectCall
  services : Text → Option Text → ProjectCall
  create_service : Text → NewService → Option Text → ProjectCall
  create_from_template : Text → TemplateChoice → Option Text → ProjectCall
  export_services : Text → Bool → Option Text → ProjectCall
  deployments : Text → Option Text → Option Text → ProjectCall

-- The type that `request` is told to answer with.
abbrev pub ProjectAnswer : ProjectCall → Type 0
ProjectAnswer me = Me
ProjectAnswer projects = List Project
ProjectAnswer (project _) = Project
ProjectAnswer (create_project _) = Project
ProjectAnswer (update_project _ _) = Project
ProjectAnswer (delete_project _) = Done
ProjectAnswer (deploy _ _) = List Deployment
ProjectAnswer (stop_project _ _) = Done
ProjectAnswer (project_variables _) = List EnvVar
ProjectAnswer (save_project_variables _ _) = List EnvVar
ProjectAnswer (environments _) = List Environment
ProjectAnswer (create_environment _ _) = Environment
ProjectAnswer (update_environment _ _) = Environment
ProjectAnswer (delete_environment _ _) = Done
ProjectAnswer (environment_variables _) = List EnvVar
ProjectAnswer (save_environment_variables _ _) = List EnvVar
ProjectAnswer (services _ _) = List Service
ProjectAnswer (create_service _ _ _) = Service
ProjectAnswer (create_from_template _ _ _) = Installed
ProjectAnswer (export_services _ _ _) = ExportBlob
ProjectAnswer (deployments _ _ _) = List Deployment

-- What is sent as JSON.
abbrev pub ProjectSent : ProjectCall → Type 0
ProjectSent (create_project _) = NewProject
ProjectSent (update_project _ _) = ProjectChange
ProjectSent (save_project_variables _ _) = Variables
ProjectSent (create_environment _ _) = NewEnvironment
ProjectSent (update_environment _ _) = EnvironmentChange
ProjectSent (save_environment_variables _ _) = Variables
ProjectSent (create_service _ _ _) = NewService
ProjectSent (create_from_template _ _ _) = TemplateChoice
ProjectSent _ = Ignored

unfoldable pub project_call : Browser → (c : ProjectCall) → Call (ProjectSent c)
project_call b me = bare get (codes "/api/me")
project_call b projects = bare get (codes "/api/projects")
project_call b (project id) = bare get (codes "/api/projects/" ++ id)
project_call b (create_project body) = sends post (codes "/api/projects") body
project_call b (update_project id body) = sends patch (codes "/api/projects/" ++ id) body
project_call b (delete_project id) = bare delete (codes "/api/projects/" ++ id)
project_call b (deploy id env) =
    bare post (codes "/api/projects/" ++ id ++ codes "/deploy" ++ (environment_query env))
project_call b (stop_project id env) =
    bare post (codes "/api/projects/" ++ id ++ codes "/stop" ++ (environment_query env))
project_call b (project_variables id) =
    bare get (codes "/api/projects/" ++ id ++ codes "/variables")
project_call b (save_project_variables id vars) =
    sends put (codes "/api/projects/" ++ id ++ codes "/variables") (record { variables = vars })
project_call b (environments id) = bare get (codes "/api/projects/" ++ id ++ codes "/environments")
project_call b (create_environment id body) =
    sends post (codes "/api/projects/" ++ id ++ codes "/environments") body
project_call b (update_environment id body) = sends patch (codes "/api/environments/" ++ id) body
project_call b (delete_environment id remove_volumes) =
    bare delete
      (codes "/api/environments/" ++ id ++ codes "?volumes=" ++ (flag_text remove_volumes))
project_call b (environment_variables id) =
    bare get (codes "/api/environments/" ++ id ++ codes "/variables")
project_call b (save_environment_variables id vars) =
    sends put (codes "/api/environments/" ++ id ++ codes "/variables") (record { variables = vars })
project_call b (services id env) =
    bare get (codes "/api/projects/" ++ id ++ codes "/services" ++ (environment_query env))
project_call b (create_service id body env) =
    sends post (codes "/api/projects/" ++ id ++ codes "/services" ++ (environment_query env)) body
project_call b (create_from_template id body env) =
    sends post
      (codes "/api/projects/" ++ id ++ codes "/services/template" ++ (environment_query env)) body
project_call b (export_services id secrets env) = bare get (
    codes "/api/projects/"
    ++ id
    ++ codes "/services/export?secrets="
    ++ (flag_text secrets)
    ++ (and_environment env))
project_call b (deployments id env service_name) = bare get (
    codes "/api/projects/"
    ++ id
    ++ codes "/deployments?"
    ++ (search_params b.encode_form
        (set_filled (codes "environment") env ++ set_filled (codes "service") service_name)))
