-- ===== src/Api/Own.antt =====
-- All calls of `api` in apps/web/src/lib/api.ts that go through `request`.
mod Projects
mod Analytics
mod Services
mod Routing
mod Docker
mod System
use vexdock.Base.{ℕ}
use vexdock.Api.Browser.{Browser}
use vexdock.Api.Call.{Call, IsOwn}
use vexdock.Api.Projects.{ProjectCall, ProjectSent, project_call}
use vexdock.Api.Analytics.{AnalyticsCall, AnalyticsSent, analytics_call}
use vexdock.Api.Services.{ServiceCall, ServiceSent, service_call}
use vexdock.Api.Routing.{RoutingCall, RoutingSent, routing_call}
use vexdock.Api.Docker.{DockerCall, DockerSent, docker_call}
use vexdock.Api.System.{SystemCall, SystemSent, system_call}
use vexdock.Api.Own.Projects.{project_call-IsOwn}
use vexdock.Api.Own.Analytics.{analytics_call-IsOwn}
use vexdock.Api.Own.Services.{service_call-IsOwn}
use vexdock.Api.Own.Routing.{routing_call-IsOwn}
use vexdock.Api.Own.Docker.{docker_call-IsOwn}
use vexdock.Api.Own.System.{system_call-IsOwn}

pub data ApiCall : Type 0 where
  on_projects : ProjectCall → ApiCall
  on_analytics : AnalyticsCall → ApiCall
  on_services : ServiceCall → ApiCall
  on_routing : RoutingCall → ApiCall
  on_docker : DockerCall → ApiCall
  on_system : SystemCall → ApiCall

abbrev pub ApiSent : ApiCall → Type 0
ApiSent (on_projects c) = ProjectSent c
ApiSent (on_analytics c) = AnalyticsSent c
ApiSent (on_services c) = ServiceSent c
ApiSent (on_routing c) = RoutingSent c
ApiSent (on_docker c) = DockerSent c
ApiSent (on_system c) = SystemSent c

unfoldable pub api_call : Browser → (c : ApiCall) → Call (ApiSent c)
api_call b (on_projects c) = project_call b c
api_call b (on_analytics c) = analytics_call b c
api_call b (on_services c) = service_call b c
api_call b (on_routing c) = routing_call b c
api_call b (on_docker c) = docker_call b c
api_call b (on_system c) = system_call b c

-- The text of the path of each of these calls begins with `/api/`; GET and DELETE carry no body, and
-- PUT and PATCH carry one. A `..` in an id is not resolved.
pub api_call-IsOwn : (b : Browser) (c : ApiCall) → IsOwn (api_call b c)
unfolding api_call
api_call-IsOwn b (on_projects c) = project_call-IsOwn b c
api_call-IsOwn b (on_analytics c) = analytics_call-IsOwn b c
api_call-IsOwn b (on_services c) = service_call-IsOwn b c
api_call-IsOwn b (on_routing c) = routing_call-IsOwn b c
api_call-IsOwn b (on_docker c) = docker_call-IsOwn b c
api_call-IsOwn b (on_system c) = system_call-IsOwn b c
