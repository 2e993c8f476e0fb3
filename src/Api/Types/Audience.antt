-- ===== src/Api/Types/Audience.antt =====
-- The types of apps/web/src/lib/api.ts for live visitors, funnels, links and settings of analytics.
use vexdock.Base.{Bool, Option, List}
use vexdock.Text.{Text}
use vexdock.Api.Call.{Number}

pub record OnlineVisitor : Type 0 where
  pub visitor : Text
  pub path : Text
  pub channel : Text
  pub referrer : Text
  pub location : Text
  pub city : Text
  pub device : Text
  pub browser : Text
  pub os : Text
  pub last_seen : Number
  pub pageviews : Number
  pub customer : Bool

pub record FeedItem : Type 0 where
  pub at : Number
  pub kind : Text
  pub visitor : Text
  pub detail : Text
  pub currency : Text
  pub location : Text

pub record AnalyticsLive : Type 0 where
  pub online : List OnlineVisitor
  pub feed : List FeedItem

pub data FunnelKind : Type 0 where
  on_page on_goal on_payment : FunnelKind

pub record FunnelStep : Type 0 where
  pub kind : FunnelKind
  pub value : Text

pub record AnalyticsFunnel : Type 0 where
  pub id : Text
  pub name : Text
  pub steps : List FunnelStep
  pub reached : List Number

pub record ShortLink : Type 0 where
  pub slug : Text
  pub target : Text
  pub utm_source : Text
  pub utm_medium : Text
  pub utm_campaign : Text
  pub created_at : Number

pub record AnalyticsSettings : Type 0 where
  pub webhook_origin : Text
  pub share_token : Text
  pub notify_url : Text
  pub excluded_ips : Text
  pub reddit : Bool
  pub x_token : Bool
  pub providers : List (Text × Bool)

pub record AnalyticsSettingsUpdate : Type 0 where
  pub share : Option Bool
  pub notify_url : Option Text
  pub excluded_ips : Option Text
  pub reddit : Option Bool
  pub x_token : Option Text
  pub stripe_secret : Option Text
  pub lemonsqueezy_secret : Option Text
  pub paddle_secret : Option Text
  pub polar_secret : Option Text
