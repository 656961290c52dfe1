-- ===== src/Preferences/Controller/State.antt =====
-- The state of src/presentation/PreferencesController.cpp, and the beginning of a save: `beginSave`,
-- `beginUiStateSave`, `beginUiStateSaveNow`, and the start of the queued layout.
use hypertube.Common.{
  Bool, true, false, not, ◌&&◌, ◌||◌, List, ◌∷◌, Option, none, some, Text, codes, msg,
  if◌then◌else◌, is_empty, is_some, Result, ok, failure_retry, busy,
}
use hypertube.Config.Preferences.{PreferencesSettings}
use hypertube.Search.Providers.{validate_proxy_config, validate_torznab_config}
use hypertube.Preferences.Runtime.{Runtime, to_port}
use hypertube.Preferences.Credentials.{Credentials}

pub data SaveKind : Type 0 where
  no_save preferences_save ui_state_save : SaveKind

abbrev pub is_ui_save : SaveKind → Bool
is_ui_save ui_state_save = true
is_ui_save _ = false

-- What a pending save does: the task of `beginSave` with the new credentials, or a mere write.
pub data SaveTask : Type 0 where
  with_credentials : Option Text → Option Text → SaveTask
  write_only : SaveTask

-- `config` is what `getPreferencesSettings` gives, and `saves` what `savePreferencesCandidate` was
-- called with, the last call first.
pub record PreferencesController (K : Type 0) : Type 0 where
  pub config : PreferencesSettings
  pub saves : List PreferencesSettings
  pub keyring : K
  pub runtime : Runtime
  pub pending_save : Option SaveTask
  pub pending_credential_rollback : Option Credentials
  pub pending_save_kind : SaveKind
  pub last_completed_save_kind : SaveKind
  pub queued_ui_state : Option PreferencesSettings
  pub pending_preferences : PreferencesSettings
  pub previous_preferences : PreferencesSettings
  pub credentials : Credentials

-- `mergeUiStateIntoCurrent`
abbrev pub merge_ui : PreferencesSettings → PreferencesSettings → PreferencesSettings
merge_ui state current = record current { theme = state.theme; ui = state.ui }

abbrev pub already_saving : Result
already_saving = failure_retry (msg "Preferences are already being saved") busy

-- The checks of `beginSave`; without a type the proxy is one for SOCKS5.
unfoldable pub validate_preferences : PreferencesSettings → Result
validate_preferences p =
    let type = if is_empty p.proxy_type then codes "socks5" else p.proxy_type in
    let proxy = validate_proxy_config p.proxy_enabled type p.proxy_host (to_port p.proxy_port) in
    if not proxy.success
    then proxy
    else if p.torznab_enabled
    then validate_torznab_config p.torznab_url
    else ok

module _ {K : Type 0} where
  abbrev pub is_saving : PreferencesController K → Bool
  is_saving s = is_some s.pending_save || is_some s.pending_credential_rollback

  unfoldable pub begin_save :
      PreferencesSettings
      → Option Text
      → Option Text
      → PreferencesController K
      → Result × PreferencesController K
  unfolding validate_preferences
  begin_save p api_key password s =
      let valid = validate_preferences p in
      if is_saving s then (already_saving, s) else if not valid.success then (valid, s) else (
        ok,
        record s {
          previous_preferences = s.config;
          pending_preferences = p;
          pending_save_kind = preferences_save;
          pending_save = some (with_credentials api_key password);
        },
      )

  unfoldable pub begin_ui_state_save_now :
      PreferencesSettings → PreferencesController K → Result × PreferencesController K
  begin_ui_state_save_now p s = if is_saving s then (already_saving, s) else (
    ok,
    record s {
      pending_preferences = p;
      previous_preferences = s.config;
      saves = p ∷ s.saves;
      pending_save = some write_only;
      pending_save_kind = ui_state_save;
    },
  )

  unfoldable pub begin_ui_state_save :
      PreferencesSettings → PreferencesController K → Result × PreferencesController K
  unfolding begin_ui_state_save_now
  begin_ui_state_save p s =
      if is_saving s
      then (ok, record s { queued_ui_state = some p })
      else begin_ui_state_save_now p s

  -- The queued state is started; where that fails it stays queued if `keep` says so.
  unfoldable pub start_queued : Bool → PreferencesController K → PreferencesController K
  unfolding begin_ui_state_save_now
  start_queued keep s = elim s.queued_ui_state [
    | none ↦ s
    | some state ↦
        let queued = merge_ui state s.config in
        let (began, t) = begin_ui_state_save_now queued (record s { queued_ui_state = none }) in
        if not began.success && keep then record t { queued_ui_state = some queued } else t
  ]

-- `settingsPath`
unfoldable pub settings_path : Text → Text → Text
settings_path given default_path = if not (is_empty given) then given else default_path
