-- ===== src/Api/Own/Analytics.antt =====
-- The calls of Analytics.antt beside this folder, one by one.
use vexdock.Base.{refl}
use vexdock.Api.Browser.{Browser}
use vexdock.Api.Call.{IsOwn}
use vexdock.Api.Analytics.{
  AnalyticsCall, analytics_call, project_domains, domains, analytics_sites, analytics_report,
  shared_report, analytics_visitors, analytics_journey, analytics_live, analytics_funnels,
  create_funnel, delete_funnel, create_annotation, delete_annotation, short_links,
  create_short_link, delete_short_link, analytics_settings, update_analytics_settings,
}

pub analytics_call-IsOwn : (b : Browser) (c : AnalyticsCall) → IsOwn (analytics_call b c)
unfolding analytics_call
analytics_call-IsOwn b (project_domains _) = (refl, refl)
analytics_call-IsOwn b domains = (refl, refl)
analytics_call-IsOwn b analytics_sites = (refl, refl)
analytics_call-IsOwn b (analytics_report _ _) = (refl, refl)
analytics_call-IsOwn b (shared_report _ _) = (refl, refl)
analytics_call-IsOwn b (analytics_visitors _ _) = (refl, refl)
analytics_call-IsOwn b (analytics_journey _ _) = (refl, refl)
analytics_call-IsOwn b (analytics_live _) = (refl, refl)
analytics_call-IsOwn b (analytics_funnels _ _) = (refl, refl)
analytics_call-IsOwn b (create_funnel _ _) = (refl, refl)
analytics_call-IsOwn b (delete_funnel _ _) = (refl, refl)
analytics_call-IsOwn b (create_annotation _ _) = (refl, refl)
analytics_call-IsOwn b (delete_annotation _ _) = (refl, refl)
analytics_call-IsOwn b (short_links _) = (refl, refl)
analytics_call-IsOwn b (create_short_link _ _) = (refl, refl)
analytics_call-IsOwn b (delete_short_link _ _) = (refl, refl)
analytics_call-IsOwn b (analytics_settings _) = (refl, refl)
analytics_call-IsOwn b (update_analytics_settings _ _) = (refl, refl)
