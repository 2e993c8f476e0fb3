-- ===== src/Api/Routing.antt =====
-- Calls of apps/web/src/lib/api.ts: tasks, redirects, sign-in, ports and domains.
use vexdock.Base.{Bool, Option, List, ◌++◌}
use vexdock.Text.{Text, codes}
use vexdock.Api.Browser.{Browser}
use vexdock.Api.Call.{Call, Ignored, Number, bare, delete, get, patch, post, sends}
use vexdock.Api.Projects.{Done}
use vexdock.Api.Types.Access.{Certificate}
use vexdock.Api.Types.Projects.{CertificateSource, Deployment, Domain}
use vexdock.Api.Types.Services.{
  PortProtocol, ScheduledTask, ServiceBasicAuthUser, ServicePort, ServiceRedirect, TaskInput,
  TaskRun, TaskShell,
}

pub record TaskChange : Type 0 where
  pub name : Option Text
  pub description : Option Text
  pub schedule : Option Text
  pub timezone : Option Text
  pub command : Option Text
  pub shell : Option TaskShell
  pub enabled : Option Bool

pub record NewRedirect : Type 0 where
  pub regex : Text
  pub replacement : Text
  pub permanent : Bool

pub record NewBasicAuth : Type 0 where
  pub username : Text
  pub password : Text

pub record NewPort : Type 0 where
  pub published : Number
  pub target : Number
  pub protocol : PortProtocol

pub record NewDomain : Type 0 where
  pub project_id : Text
  pub environment_id : Option Text
  pub service : Text
  pub hostname : Text
  pub container_port : Number
  pub https_enabled : Bool
  pub redirect_https : Bool
  pub certificate_source : Option CertificateSource
  pub certificate_pem : Option Text
  pub private_key_pem : Option Text

pub record DomainChange : Type 0 where
  pub hostname : Option Text
  pub container_port : Option Number
  pub https_enabled : Option Bool
  pub redirect_https : Option Bool
  pub certificate_source : Option CertificateSource
  pub certificate_pem : Option Text
  pub private_key_pem : Option Text

pub record DomainResult : Type 0 where
  pub domain : Domain
  pub warning : Option Text

-- The members of `api`.
pub data RoutingCall : Type 0 where
  tasks : RoutingCall
  service_tasks : Text → RoutingCall
  create_task : Text → TaskInput → RoutingCall
  update_task : Text → TaskChange → RoutingCall
  delete_task : Text → RoutingCall
  service_redirects : Text → RoutingCall
  create_redirect : Text → NewRedirect → RoutingCall
  delete_redirect : Text → Text → RoutingCall
  service_basic_auth : Text → RoutingCall
  create_basic_auth : Text → NewBasicAuth → RoutingCall
  delete_basic_auth : Text → Text → RoutingCall
  service_ports : Text → RoutingCall
  create_service_port : Text → NewPort → RoutingCall
  delete_service_port : Text → Text → RoutingCall
  run_task : Text → RoutingCall
  task_runs : Text → RoutingCall
  create_new_domain : NewDomain → RoutingCall
  update_domain : Text → DomainChange → RoutingCall
  delete_domain : Text → RoutingCall
  issue_certificate : Text → RoutingCall
  cancel_deployment : Text → RoutingCall
  rollback : Text → RoutingCall

-- The type that `request` is told to answer with.
abbrev pub RoutingAnswer : RoutingCall → Type 0
RoutingAnswer tasks = List ScheduledTask
RoutingAnswer (service_tasks _) = List ScheduledTask
RoutingAnswer (create_task _ _) = ScheduledTask
RoutingAnswer (update_task _ _) = ScheduledTask
RoutingAnswer (delete_task _) = Ignored
RoutingAnswer (service_redirects _) = List ServiceRedirect
RoutingAnswer (create_redirect _ _) = ServiceRedirect
RoutingAnswer (delete_redirect _ _) = Ignored
RoutingAnswer (service_basic_auth _) = List ServiceBasicAuthUser
RoutingAnswer (create_basic_auth _ _) = ServiceBasicAuthUser
RoutingAnswer (delete_basic_auth _ _) = Ignored
RoutingAnswer (service_ports _) = List ServicePort
RoutingAnswer (create_service_port _ _) = ServicePort
RoutingAnswer (delete_service_port _ _) = Ignored
RoutingAnswer (run_task _) = TaskRun
RoutingAnswer (task_runs _) = List TaskRun
RoutingAnswer (create_new_domain _) = DomainResult
RoutingAnswer (update_domain _ _) = DomainResult
RoutingAnswer (delete_domain _) = Done
RoutingAnswer (issue_certificate _) = Certificate
RoutingAnswer (cancel_deployment _) = Done
RoutingAnswer (rollback _) = Deployment

-- What is sent as JSON.
abbrev pub RoutingSent : RoutingCall → Type 0
RoutingSent (create_task _ _) = TaskInput
RoutingSent (update_task _ _) = TaskChange
RoutingSent (create_redirect _ _) = NewRedirect
RoutingSent (create_basic_auth _ _) = NewBasicAuth
RoutingSent (create_service_port _ _) = NewPort
RoutingSent (create_new_domain _) = NewDomain
RoutingSent (update_domain _ _) = DomainChange
RoutingSent _ = Ignored

unfoldable pub routing_call : Browser → (c : RoutingCall) → Call (RoutingSent c)
routing_call b tasks = bare get (codes "/api/tasks")
routing_call b (service_tasks id) = bare get (codes "/api/services/" ++ id ++ codes "/tasks")
routing_call b (create_task id body) =
    sends post (codes "/api/services/" ++ id ++ codes "/tasks") body
routing_call b (update_task id body) = sends patch (codes "/api/tasks/" ++ id) body
routing_call b (delete_task id) = bare delete (codes "/api/tasks/" ++ id)
routing_call b (service_redirects id) =
    bare get (codes "/api/services/" ++ id ++ codes "/redirects")
routing_call b (create_redirect id body) =
    sends post (codes "/api/services/" ++ id ++ codes "/redirects") body
routing_call b (delete_redirect id redirect_id) =
    bare delete (codes "/api/services/" ++ id ++ codes "/redirects/" ++ redirect_id)
routing_call b (service_basic_auth id) =
    bare get (codes "/api/services/" ++ id ++ codes "/basic-auth")
routing_call b (create_basic_auth id body) =
    sends post (codes "/api/services/" ++ id ++ codes "/basic-auth") body
routing_call b (delete_basic_auth id user_id) =
    bare delete (codes "/api/services/" ++ id ++ codes "/basic-auth/" ++ user_id)
routing_call b (service_ports id) = bare get (codes "/api/services/" ++ id ++ codes "/ports")
routing_call b (create_service_port id body) =
    sends post (codes "/api/services/" ++ id ++ codes "/ports") body
routing_call b (delete_service_port id port_id) =
    bare delete (codes "/api/services/" ++ id ++ codes "/ports/" ++ port_id)
routing_call b (run_task id) = bare post (codes "/api/tasks/" ++ id ++ codes "/run")
routing_call b (task_runs id) = bare get (codes "/api/tasks/" ++ id ++ codes "/runs")
routing_call b (create_new_domain body) = sends post (codes "/api/domains") body
routing_call b (update_domain id body) = sends patch (codes "/api/domains/" ++ id) body
routing_call b (delete_domain id) = bare delete (codes "/api/domains/" ++ id)
routing_call b (issue_certificate id) =
    bare post (codes "/api/domains/" ++ id ++ codes "/certificate")
routing_call b (cancel_deployment id) =
    bare post (codes "/api/deployments/" ++ id ++ codes "/cancel")
routing_call b (rollback id) = bare post (codes "/api/deployments/" ++ id ++ codes "/rollback")
