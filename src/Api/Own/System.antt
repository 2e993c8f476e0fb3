-- ===== src/Api/Own/System.antt =====
-- The calls of System.antt beside this folder, one by one.
use vexdock.Base.{refl}
use vexdock.Api.Browser.{Browser}
use vexdock.Api.Call.{IsOwn}
use vexdock.Api.System.{
  SystemCall, system_call, registries, create_registry, delete_registry, tokens, create_token,
  delete_token, oauth_check, oauth_approve, templates, engines, engine_versions, system_info,
  system_metrics, settings, save_settings, certificates, backups, create_backup, delete_backup,
  version, set_version_settings, check_version, update, update_state,
}

pub system_call-IsOwn : (b : Browser) (c : SystemCall) → IsOwn (system_call b c)
unfolding system_call
system_call-IsOwn b registries = (refl, refl)
system_call-IsOwn b (create_registry _) = (refl, refl)
system_call-IsOwn b (delete_registry _) = (refl, refl)
system_call-IsOwn b tokens = (refl, refl)
system_call-IsOwn b (create_token _ _) = (refl, refl)
system_call-IsOwn b (delete_token _) = (refl, refl)
system_call-IsOwn b (oauth_check _) = (refl, refl)
system_call-IsOwn b (oauth_approve _ _) = (refl, refl)
system_call-IsOwn b templates = (refl, refl)
system_call-IsOwn b engines = (refl, refl)
system_call-IsOwn b (engine_versions _) = (refl, refl)
system_call-IsOwn b system_info = (refl, refl)
system_call-IsOwn b (system_metrics _) = (refl, refl)
system_call-IsOwn b settings = (refl, refl)
system_call-IsOwn b (save_settings _) = (refl, refl)
system_call-IsOwn b certificates = (refl, refl)
system_call-IsOwn b backups = (refl, refl)
system_call-IsOwn b (create_backup _) = (refl, refl)
system_call-IsOwn b (delete_backup _) = (refl, refl)
system_call-IsOwn b version = (refl, refl)
system_call-IsOwn b (set_version_settings _) = (refl, refl)
system_call-IsOwn b check_version = (refl, refl)
system_call-IsOwn b (update _) = (refl, refl)
system_call-IsOwn b update_state = (refl, refl)
