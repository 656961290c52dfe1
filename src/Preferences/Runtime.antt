-- ===== src/Preferences/Runtime.antt =====
-- `applyRuntime` and `applyUiRuntime` of src/presentation/PreferencesController.cpp.
use hypertube.Common.{
  ℕ, ℤ, pos, negsuc, Bool, not, [], ◌||◌, Text, codes, ◌==◌, text_eq, Option, get_or_else,
  if◌then◌else◌, Result,
}
use hypertube.Config.Preferences.{PreferencesSettings}
use hypertube.Search.Providers.{Providers, set_active_search_provider}
use hypertube.Search.Providers.Torznab.{TorznabProvider, configure_torznab_provider}
use hypertube.Search.Settings.{SearchSettings, set_proxy_config}
use hypertube.Torrents.Session.{
  SessionSettings, set_session_download_limit, set_session_upload_limit, configure_discovery,
  set_session_proxy,
}

-- What the preferences are applied to: the theme that was given to the callback last, the torrent
-- session, the settings and the providers of the search, and whether its cache was cleared.
pub record Runtime : Type 0 where
  pub theme : ℤ
  pub session : SessionSettings
  pub search : SearchSettings
  pub providers : Providers TorznabProvider
  pub cleared : Bool

-- A port as the search checks it; it refuses 0 as it does a negative number.
abbrev pub to_port : ℤ → ℕ
to_port (pos n) = n
to_port (negsuc n) = 0

unfoldable pub apply_ui_runtime : PreferencesSettings → Runtime → Runtime
apply_ui_runtime p r = record r { theme = p.theme }

abbrev pub session_proxy_type : PreferencesSettings → ℕ
session_proxy_type p =
    if p.proxy_enabled then (if p.proxy_type == codes "http" then 2 else 1) else 0

-- The calls of the torrent manager.
unfoldable pub apply_session : PreferencesSettings → Text → SessionSettings → SessionSettings
unfolding set_session_download_limit set_session_upload_limit configure_discovery set_session_proxy
apply_session p password s =
    set_session_proxy p.proxy_host p.proxy_port p.proxy_username password (session_proxy_type p) (
      configure_discovery p.enable_dht p.enable_upnp p.enable_nat_pmp (
        set_session_upload_limit p.upload_speed_limit
          (set_session_download_limit p.download_speed_limit s)))

-- The provider that the settings ask for is made active.
unfoldable pub activate : Text → Runtime → Result × Runtime
unfolding set_active_search_provider
activate id r =
    let (result, providers, cleared) = set_active_search_provider id r.providers in
    (result, record r { providers = providers; cleared = r.cleared || cleared })

unfoldable pub apply_provider : PreferencesSettings → Option Text → Runtime → Result × Runtime
unfolding configure_torznab_provider activate
apply_provider p api_key r =
    if not p.torznab_enabled
    then activate (codes "torrents-csv") r
    else let (provider, providers) =
        configure_torznab_provider p.torznab_url (get_or_else [] api_key) r.providers in
      if not provider.success
      then (provider, record r { providers = providers })
      else activate (codes "torznab") (record r { providers = providers })

-- `api_key` and `password` are the credentials in use.
unfoldable pub apply_runtime : PreferencesSettings → Option Text → Text → Runtime → Result × Runtime
unfolding apply_session apply_provider set_proxy_config
apply_runtime p api_key password r =
    let (search_proxy, search, cleared) =
      set_proxy_config
        record {
          enabled = p.proxy_enabled;
          type = p.proxy_type;
          host = p.proxy_host;
          port = to_port p.proxy_port;
          username = p.proxy_username;
          password = password;
        }
        r.search in
    let applied = record r {
      theme = p.theme;
      session = apply_session p password r.session;
      search = search;
      cleared = r.cleared || cleared;
    } in
    if not search_proxy.success then (search_proxy, applied) else apply_provider p api_key applied
