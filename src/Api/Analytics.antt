-- ===== src/Api/Analytics.antt =====
-- Calls of apps/web/src/lib/api.ts: domains and their analytics.
use vexdock.Base.{Bool, Option, List, some, true, [], ◌∷◌, ◌++◌}
use vexdock.Text.{Text, codes}
use vexdock.Api.Browser.{Browser}
use vexdock.Api.Call.{Call, Ignored, Number, bare, delete, get, post, put, search_params, sends}
use vexdock.Api.Types.Analytics.{
  AnalyticsEvent, AnalyticsPayment, AnalyticsRange, today, yesterday, hours_24, days_7, days_30,
  days_90, months_12, all_time, AnalyticsReportBody, AnalyticsSite, AnalyticsSpan, AnalyticsVisitor,
  Annotation,
}
use vexdock.Api.Types.Audience.{
  AnalyticsFunnel, AnalyticsLive, AnalyticsSettings, AnalyticsSettingsUpdate, FunnelStep, ShortLink,
}
use vexdock.Api.Types.Projects.{Domain}

abbrev pub range_text : AnalyticsRange → Text
range_text today = codes "today"
range_text yesterday = codes "yesterday"
range_text hours_24 = codes "24h"
range_text days_7 = codes "7d"
range_text days_30 = codes "30d"
range_text days_90 = codes "90d"
range_text months_12 = codes "12m"
range_text all_time = codes "all"

-- Both days are there and not empty.
abbrev pub day_params : Option Text → Option Text → List (Text × Text)
day_params (some (c ∷ cs)) (some (d ∷ ds)) = (codes "from", c ∷ cs) ∷ (codes "to", d ∷ ds) ∷ []
day_params _ _ = []

abbrev pub filter_params : Browser → Option (List (Text × Text)) → List (Text × Text)
filter_params b (some (f ∷ fs)) = (codes "filters", b.pairs_json (f ∷ fs)) ∷ []
filter_params b _ = []

abbrev pub compare_params : Option Bool → List (Text × Text)
compare_params (some true) = (codes "compare", codes "true") ∷ []
compare_params _ = []

unfoldable pub span_query : Browser → AnalyticsSpan → Text
span_query b span = search_params b.encode_form (
    (codes "range", range_text span.range)
      ∷ (codes "tz_offset", b.zone_offset)
      ∷ day_params span.from_day span.to_day
    ++ filter_params b span.filters
    ++ compare_params span.compare)

pub record ReportOf : Type 0 where
  pub domain : Domain
  pub body : AnalyticsReportBody

pub record SharedReport : Type 0 where
  pub hostname : Text
  pub body : AnalyticsReportBody

pub record Visitors : Type 0 where
  pub total : Number
  pub visitors : List AnalyticsVisitor

pub record Journey : Type 0 where
  pub visitor : Text
  pub events : List AnalyticsEvent
  pub payments : List AnalyticsPayment

pub record NewFunnel : Type 0 where
  pub name : Text
  pub steps : List FunnelStep

pub record AnnotationText : Type 0 where
  pub text : Text

pub record NewShortLink : Type 0 where
  pub slug : Text
  pub target : Text
  pub utm_source : Text
  pub utm_medium : Text
  pub utm_campaign : Text

-- The members of `api`.
pub data AnalyticsCall : Type 0 where
  project_domains : Text → AnalyticsCall
  domains : AnalyticsCall
  analytics_sites : AnalyticsCall
  analytics_report : Text → AnalyticsSpan → AnalyticsCall
  shared_report : Text → AnalyticsSpan → AnalyticsCall
  analytics_visitors : Text → AnalyticsSpan → AnalyticsCall
  analytics_journey : Text → Text → AnalyticsCall
  analytics_live : Text → AnalyticsCall
  analytics_funnels : Text → AnalyticsSpan → AnalyticsCall
  create_funnel : Text → NewFunnel → AnalyticsCall
  delete_funnel : Text → Text → AnalyticsCall
  create_annotation : Text → Text → AnalyticsCall
  delete_annotation : Text → Text → AnalyticsCall
  short_links : Text → AnalyticsCall
  create_short_link : Text → NewShortLink → AnalyticsCall
  delete_short_link : Text → Text → AnalyticsCall
  analytics_settings : Text → AnalyticsCall
  update_analytics_settings : Text → AnalyticsSettingsUpdate → AnalyticsCall

-- The type that `request` is told to answer with.
abbrev pub AnalyticsAnswer : AnalyticsCall → Type 0
AnalyticsAnswer (project_domains _) = List Domain
AnalyticsAnswer domains = List Domain
AnalyticsAnswer analytics_sites = List AnalyticsSite
AnalyticsAnswer (analytics_report _ _) = ReportOf
AnalyticsAnswer (shared_report _ _) = SharedReport
AnalyticsAnswer (analytics_visitors _ _) = Visitors
AnalyticsAnswer (analytics_journey _ _) = Journey
AnalyticsAnswer (analytics_live _) = AnalyticsLive
AnalyticsAnswer (analytics_funnels _ _) = List AnalyticsFunnel
AnalyticsAnswer (create_funnel _ _) = Ignored
AnalyticsAnswer (delete_funnel _ _) = Ignored
AnalyticsAnswer (create_annotation _ _) = Annotation
AnalyticsAnswer (delete_annotation _ _) = Ignored
AnalyticsAnswer (short_links _) = List ShortLink
AnalyticsAnswer (create_short_link _ _) = ShortLink
AnalyticsAnswer (delete_short_link _ _) = Ignored
AnalyticsAnswer (analytics_settings _) = AnalyticsSettings
AnalyticsAnswer (update_analytics_settings _ _) = AnalyticsSettings

-- What is sent as JSON.
abbrev pub AnalyticsSent : AnalyticsCall → Type 0
AnalyticsSent (create_funnel _ _) = NewFunnel
AnalyticsSent (create_annotation _ _) = AnnotationText
AnalyticsSent (create_short_link _ _) = NewShortLink
AnalyticsSent (update_analytics_settings _ _) = AnalyticsSettingsUpdate
AnalyticsSent _ = Ignored

unfoldable pub analytics_call : Browser → (c : AnalyticsCall) → Call (AnalyticsSent c)
analytics_call b (project_domains id) = bare get (codes "/api/projects/" ++ id ++ codes "/domains")
analytics_call b domains = bare get (codes "/api/domains")
analytics_call b analytics_sites = bare get (codes "/api/analytics")
analytics_call b (analytics_report id span) =
    bare get (codes "/api/domains/" ++ id ++ codes "/analytics?" ++ (span_query b span))
analytics_call b (shared_report token span) = bare get (
    codes "/api/analytics/shared/"
    ++ (b.encode_component token)
    ++ codes "?"
    ++ (span_query b span))
analytics_call b (analytics_visitors id span) =
    bare get (codes "/api/domains/" ++ id ++ codes "/analytics/visitors?" ++ (span_query b span))
analytics_call b (analytics_journey id visitor) =
    bare get
      (codes "/api/domains/" ++ id ++ codes "/analytics/visitors/" ++ (b.encode_component visitor))
analytics_call b (analytics_live id) =
    bare get (codes "/api/domains/" ++ id ++ codes "/analytics/live")
analytics_call b (analytics_funnels id span) =
    bare get (codes "/api/domains/" ++ id ++ codes "/analytics/funnels?" ++ (span_query b span))
analytics_call b (create_funnel id body) =
    sends post (codes "/api/domains/" ++ id ++ codes "/analytics/funnels") body
analytics_call b (delete_funnel id funnel_id) =
    bare delete (codes "/api/domains/" ++ id ++ codes "/analytics/funnels/" ++ funnel_id)
analytics_call b (create_annotation id text) =
    sends post (codes "/api/domains/" ++ id ++ codes "/analytics/annotations")
      (record { text = text })
analytics_call b (delete_annotation id annotation_id) =
    bare delete (codes "/api/domains/" ++ id ++ codes "/analytics/annotations/" ++ annotation_id)
analytics_call b (short_links id) =
    bare get (codes "/api/domains/" ++ id ++ codes "/analytics/links")
analytics_call b (create_short_link id body) =
    sends post (codes "/api/domains/" ++ id ++ codes "/analytics/links") body
analytics_call b (delete_short_link id slug) =
    bare delete
      (codes "/api/domains/" ++ id ++ codes "/analytics/links/" ++ (b.encode_component slug))
analytics_call b (analytics_settings id) =
    bare get (codes "/api/domains/" ++ id ++ codes "/analytics/settings")
analytics_call b (update_analytics_settings id body) =
    sends put (codes "/api/domains/" ++ id ++ codes "/analytics/settings") body
