-- ===== src/Api/Own/Projects.antt =====
-- The calls of Projects.antt beside this folder, one by one.
use vexdock.Base.{refl}
use vexdock.Api.Browser.{Browser}
use vexdock.Api.Call.{IsOwn}
use vexdock.Api.Projects.{
  ProjectCall, project_call, me, projects, project, create_project, update_project, delete_project,
  deploy, stop_project, project_variables, save_project_variables, environments, create_environment,
  update_environment, delete_environment, environment_variables, save_environment_variables,
  services, create_service, create_from_template, export_services, deployments,
}

pub project_call-IsOwn : (b : Browser) (c : ProjectCall) → IsOwn (project_call b c)
unfolding project_call
project_call-IsOwn b me = (refl, refl)
project_call-IsOwn b projects = (refl, refl)
project_call-IsOwn b (project _) = (refl, refl)
project_call-IsOwn b (create_project _) = (refl, refl)
project_call-IsOwn b (update_project _ _) = (refl, refl)
project_call-IsOwn b (delete_project _) = (refl, refl)
project_call-IsOwn b (deploy _ _) = (refl, refl)
project_call-IsOwn b (stop_project _ _) = (refl, refl)
project_call-IsOwn b (project_variables _) = (refl, refl)
project_call-IsOwn b (save_project_variables _ _) = (refl, refl)
project_call-IsOwn b (environments _) = (refl, refl)
project_call-IsOwn b (create_environment _ _) = (refl, refl)
project_call-IsOwn b (update_environment _ _) = (refl, refl)
project_call-IsOwn b (delete_environment _ _) = (refl, refl)
project_call-IsOwn b (environment_variables _) = (refl, refl)
project_call-IsOwn b (save_environment_variables _ _) = (refl, refl)
project_call-IsOwn b (services _ _) = (refl, refl)
project_call-IsOwn b (create_service _ _ _) = (refl, refl)
project_call-IsOwn b (create_from_template _ _ _) = (refl, refl)
project_call-IsOwn b (export_services _ _ _) = (refl, refl)
project_call-IsOwn b (deployments _ _ _) = (refl, refl)
