-- ===== src/Api/Types/Analytics.antt =====
-- The types of apps/web/src/lib/api.ts for analytics.
use vexdock.Base.{Bool, Option, List}
use vexdock.Text.{Text}
use vexdock.Api.Call.{Number}
use vexdock.Api.Types.Projects.{Domain}

pub record AnalyticsSite : Type 0 where
  pub domain : Domain
  pub visitors : Number
  pub hourly : List Number

pub data AnalyticsRange : Type 0 where
  today yesterday hours_24 days_7 days_30 days_90 months_12 all_time : AnalyticsRange

pub record AnalyticsSpan : Type 0 where
  pub range : AnalyticsRange
  pub from_day : Option Text
  pub to_day : Option Text
  pub filters : Option (List (Text × Text))
  pub compare : Option Bool

pub record AnalyticsRow : Type 0 where
  pub name : Text
  pub visitors : Number
  pub revenue : Number

pub record AnalyticsPoint : Type 0 where
  pub at : Number
  pub visitors : Number
  pub pageviews : Number
  pub revenue : Number

pub record AnalyticsReport : Type 0 where
  pub visitors : Number
  pub pageviews : Number
  pub sessions : Number
  pub bounce_rate : Number
  pub session_seconds : Number
  pub online : Number
  pub revenue : Number
  pub currency : Text
  pub customers : Number
  pub series : List AnalyticsPoint
  pub channels : List AnalyticsRow
  pub referrers : List AnalyticsRow
  pub campaigns : List AnalyticsRow
  pub pages : List AnalyticsRow
  pub entry_pages : List AnalyticsRow
  pub exit_pages : List AnalyticsRow
  pub locations : List AnalyticsRow
  pub regions : List AnalyticsRow
  pub cities : List AnalyticsRow
  pub devices : List AnalyticsRow
  pub browsers : List AnalyticsRow
  pub systems : List AnalyticsRow
  pub goals : List AnalyticsRow

pub record Annotation : Type 0 where
  pub id : Text
  pub at : Number
  pub source : Text
  pub text : Text
  pub url : Text
  pub author : Text
  pub links : List Text

pub record AnalyticsReportBody : Type 0 where
  pub report : AnalyticsReport
  pub previous : Option AnalyticsReport
  pub annotations : List Annotation
  pub since : Number
  pub until : Number

pub record AnalyticsVisitor : Type 0 where
  pub visitor : Text
  pub first_seen : Number
  pub last_seen : Number
  pub sessions : Number
  pub pageviews : Number
  pub goals : Number
  pub channel : Text
  pub referrer : Text
  pub location : Text
  pub city : Text
  pub device : Text
  pub browser : Text
  pub os : Text
  pub revenue : Number
  pub currency : Text

pub record AnalyticsEvent : Type 0 where
  pub at : Number
  pub session : Text
  pub kind : Text
  pub name : Text
  pub path : Text
  pub referrer : Text
  pub utm_source : Text
  pub utm_medium : Text
  pub utm_campaign : Text
  pub location : Text
  pub region : Text
  pub city : Text
  pub device : Text
  pub browser : Text
  pub os : Text
  pub props : Text

pub record AnalyticsPayment : Type 0 where
  pub payment_id : Text
  pub at : Number
  pub amount : Number
  pub currency : Text
