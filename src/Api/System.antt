-- ===== src/Api/System.antt =====
-- Calls of apps/web/src/lib/api.ts: registries, tokens, catalogs and the server itself.
use vexdock.Base.{Bool, Option, List, none, some, [], ◌++◌}
use vexdock.Text.{Text, codes}
use vexdock.Access.{ProjectGrant}
use vexdock.Api.Browser.{Browser}
use vexdock.Api.Call.{Call, Ignored, bare, delete, flag_text, get, post, put, sends}
use vexdock.Api.Projects.{Done}
use vexdock.Api.Services.{window_text}
use vexdock.Api.Types.Access.{ApiToken, Certificate, Engine, OAuthAuthorization, Registry, Template}
use vexdock.Api.Types.System.{
  Backup, HostPoint, MetricWindow, Settings, SettingsUpdate, SystemInfo, UpdateState,
  VersionSettings, VersionStatus,
}

-- `version ?? ''`
abbrev pub or_blank : Option Text → Text
or_blank none = []
or_blank (some s) = s

pub record NewRegistry : Type 0 where
  pub name : Text
  pub url : Text
  pub username : Text
  pub password : Text

pub record NewToken : Type 0 where
  pub name : Text
  pub projects : Option (List ProjectGrant)

pub record TokenValue : Type 0 where
  pub token : ApiToken
  pub value : Text

pub record OAuthClient : Type 0 where
  pub client_name : Text
  pub redirect_uri : Text

pub record OAuthApproval : Type 0 where
  pub authorization : OAuthAuthorization
  pub projects : Option (List ProjectGrant)

pub record OAuthRedirect : Type 0 where
  pub redirect : Text

pub record EngineVersions : Type 0 where
  pub versions : List Text
  pub live : Bool

pub record VersionRequest : Type 0 where
  pub version : Text

pub record UpdateStarted : Type 0 where
  pub status : Text
  pub message : Text

-- The members of `api`.
pub data SystemCall : Type 0 where
  registries : SystemCall
  create_registry : NewRegistry → SystemCall
  delete_registry : Text → SystemCall
  tokens : SystemCall
  create_token : Text → Option (List ProjectGrant) → SystemCall
  delete_token : Text → SystemCall
  oauth_check : Text → SystemCall
  oauth_approve : OAuthAuthorization → Option (List ProjectGrant) → SystemCall
  templates : SystemCall
  engines : SystemCall
  engine_versions : Text → SystemCall
  system_info : SystemCall
  system_metrics : MetricWindow → SystemCall
  settings : SystemCall
  save_settings : SettingsUpdate → SystemCall
  certificates : SystemCall
  backups : SystemCall
  create_backup : Bool → SystemCall
  delete_backup : Text → SystemCall
  version : SystemCall
  set_version_settings : VersionSettings → SystemCall
  check_version : SystemCall
  update : Option Text → SystemCall
  update_state : SystemCall

-- The type that `request` is told to answer with.
abbrev pub SystemAnswer : SystemCall → Type 0
SystemAnswer registries = List Registry
SystemAnswer (create_registry _) = Registry
SystemAnswer (delete_registry _) = Done
SystemAnswer tokens = List ApiToken
SystemAnswer (create_token _ _) = TokenValue
SystemAnswer (delete_token _) = Done
SystemAnswer (oauth_check _) = OAuthClient
SystemAnswer (oauth_approve _ _) = OAuthRedirect
SystemAnswer templates = List Template
SystemAnswer engines = List Engine
SystemAnswer (engine_versions _) = EngineVersions
SystemAnswer system_info = SystemInfo
SystemAnswer (system_metrics _) = List HostPoint
SystemAnswer settings = Settings
SystemAnswer (save_settings _) = Settings
SystemAnswer certificates = List Certificate
SystemAnswer backups = List Backup
SystemAnswer (create_backup _) = Backup
SystemAnswer (delete_backup _) = Done
SystemAnswer version = VersionStatus
SystemAnswer (set_version_settings _) = VersionStatus
SystemAnswer check_version = VersionStatus
SystemAnswer (update _) = UpdateStarted
SystemAnswer update_state = UpdateState

-- What is sent as JSON.
abbrev pub SystemSent : SystemCall → Type 0
SystemSent (create_registry _) = NewRegistry
SystemSent (create_token _ _) = NewToken
SystemSent (oauth_approve _ _) = OAuthApproval
SystemSent (save_settings _) = SettingsUpdate
SystemSent (set_version_settings _) = VersionSettings
SystemSent (update _) = VersionRequest
SystemSent _ = Ignored

unfoldable pub system_call : Browser → (c : SystemCall) → Call (SystemSent c)
system_call b registries = bare get (codes "/api/registries")
system_call b (create_registry body) = sends post (codes "/api/registries") body
system_call b (delete_registry id) = bare delete (codes "/api/registries/" ++ id)
system_call b tokens = bare get (codes "/api/tokens")
system_call b (create_token name grants) =
    sends post (codes "/api/tokens") (record { name = name; projects = grants })
system_call b (delete_token id) = bare delete (codes "/api/tokens/" ++ id)
system_call b (oauth_check query_text) = bare get (codes "/api/oauth/authorize" ++ query_text)
system_call b (oauth_approve request grants) =
    sends post (codes "/api/oauth/authorize")
      (record { authorization = request; projects = grants })
system_call b templates = bare get (codes "/api/templates")
system_call b engines = bare get (codes "/api/engines")
system_call b (engine_versions slug) = bare get (codes "/api/engines/" ++ slug ++ codes "/versions")
system_call b system_info = bare get (codes "/api/system/info")
system_call b (system_metrics window) =
    bare get (codes "/api/system/metrics?window=" ++ (window_text window))
system_call b settings = bare get (codes "/api/system/settings")
system_call b (save_settings body) = sends put (codes "/api/system/settings") body
system_call b certificates = bare get (codes "/api/system/certificates")
system_call b backups = bare get (codes "/api/system/backups")
system_call b (create_backup include_volumes) =
    bare post (codes "/api/system/backup?volumes=" ++ (flag_text include_volumes))
system_call b (delete_backup name) =
    bare delete (codes "/api/system/backups/" ++ (b.encode_component name))
system_call b version = bare get (codes "/api/system/version")
system_call b (set_version_settings body) = sends put (codes "/api/system/version") body
system_call b check_version = bare post (codes "/api/system/version/check")
system_call b (update wanted) =
    sends post (codes "/api/system/update") (record { version = or_blank wanted })
system_call b update_state = bare get (codes "/api/system/update/status")
