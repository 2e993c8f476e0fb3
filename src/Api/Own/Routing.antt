-- ===== src/Api/Own/Routing.antt =====
-- The calls of Routing.antt beside this folder, one by one.
use vexdock.Base.{refl}
use vexdock.Api.Browser.{Browser}
use vexdock.Api.Call.{IsOwn}
use vexdock.Api.Routing.{
  RoutingCall, routing_call, tasks, service_tasks, create_task, update_task, delete_task,
  service_redirects, create_redirect, delete_redirect, service_basic_auth, create_basic_auth,
  delete_basic_auth, service_ports, create_service_port, delete_service_port, run_task, task_runs,
  create_new_domain, update_domain, delete_domain, issue_certificate, cancel_deployment, rollback,
}

pub routing_call-IsOwn : (b : Browser) (c : RoutingCall) → IsOwn (routing_call b c)
unfolding routing_call
routing_call-IsOwn b tasks = (refl, refl)
routing_call-IsOwn b (service_tasks _) = (refl, refl)
routing_call-IsOwn b (create_task _ _) = (refl, refl)
routing_call-IsOwn b (update_task _ _) = (refl, refl)
routing_call-IsOwn b (delete_task _) = (refl, refl)
routing_call-IsOwn b (service_redirects _) = (refl, refl)
routing_call-IsOwn b (create_redirect _ _) = (refl, refl)
routing_call-IsOwn b (delete_redirect _ _) = (refl, refl)
routing_call-IsOwn b (service_basic_auth _) = (refl, refl)
routing_call-IsOwn b (create_basic_auth _ _) = (refl, refl)
routing_call-IsOwn b (delete_basic_auth _ _) = (refl, refl)
routing_call-IsOwn b (service_ports _) = (refl, refl)
routing_call-IsOwn b (create_service_port _ _) = (refl, refl)
routing_call-IsOwn b (delete_service_port _ _) = (refl, refl)
routing_call-IsOwn b (run_task _) = (refl, refl)
routing_call-IsOwn b (task_runs _) = (refl, refl)
routing_call-IsOwn b (create_new_domain _) = (refl, refl)
routing_call-IsOwn b (update_domain _ _) = (refl, refl)
routing_call-IsOwn b (delete_domain _) = (refl, refl)
routing_call-IsOwn b (issue_certificate _) = (refl, refl)
routing_call-IsOwn b (cancel_deployment _) = (refl, refl)
routing_call-IsOwn b (rollback _) = (refl, refl)
