-- ===== src/Api/Tests.antt =====
-- Calls of `api` in apps/web/src/lib/api.ts, with a browser that escapes nothing.
use vexdock.Base.{◌≡◌, refl, true, none, some}
use vexdock.Text.{codes, join}
use vexdock.Api.Browser.{Browser}
use vexdock.Api.Call.{bare, delete, get, search_params}
use vexdock.Api.Projects.{project_call, deployments, delete_environment}
use vexdock.Api.Own.{ApiCall, on_projects, api_call}

abbrev plain_browser : Browser
plain_browser = record {
  encode_component = λ s. s;
  encode_form = λ s. s;
  pairs_json = λ _. codes "[]";
  conditions_json = λ _. codes "[]";
  number_text = λ _. codes "0";
  zone_offset = codes "0";
}

abbrev of_service : ApiCall
of_service = on_projects (deployments (codes "p1") none (some (codes "web")))

deployments_test :
    api_call plain_browser of_service ≡ bare get (codes "/api/projects/p1/deployments?service=web")
unfolding api_call project_call search_params join
deployments_test = refl

delete_test :
    project_call plain_browser (delete_environment (codes "e1") true)
    ≡ bare delete (codes "/api/environments/e1?volumes=true")
unfolding project_call
delete_test = refl
