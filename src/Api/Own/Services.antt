-- ===== src/Api/Own/Services.antt =====
-- The calls of Services.antt beside this folder, one by one.
use vexdock.Base.{refl}
use vexdock.Api.Browser.{Browser}
use vexdock.Api.Call.{IsOwn}
use vexdock.Api.Services.{
  ServiceCall, service_call, service, update_service, delete_service, duplicate_service,
  move_service, service_database, studio_schema, studio_rows, studio_changes, studio_query,
  service_variables, save_service_variables, service_metrics, deploy_service, service_action, exec,
}

pub service_call-IsOwn : (b : Browser) (c : ServiceCall) → IsOwn (service_call b c)
unfolding service_call
service_call-IsOwn b (service _) = (refl, refl)
service_call-IsOwn b (update_service _ _) = (refl, refl)
service_call-IsOwn b (delete_service _) = (refl, refl)
service_call-IsOwn b (duplicate_service _ _) = (refl, refl)
service_call-IsOwn b (move_service _ _) = (refl, refl)
service_call-IsOwn b (service_database _) = (refl, refl)
service_call-IsOwn b (studio_schema _) = (refl, refl)
service_call-IsOwn b (studio_rows _ _) = (refl, refl)
service_call-IsOwn b (studio_changes _ _) = (refl, refl)
service_call-IsOwn b (studio_query _ _) = (refl, refl)
service_call-IsOwn b (service_variables _) = (refl, refl)
service_call-IsOwn b (save_service_variables _ _) = (refl, refl)
service_call-IsOwn b (service_metrics _ _) = (refl, refl)
service_call-IsOwn b (deploy_service _) = (refl, refl)
service_call-IsOwn b (service_action _ _) = (refl, refl)
service_call-IsOwn b (exec _ _) = (refl, refl)
