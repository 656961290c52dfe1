-- ===== src/Config/Preferences.antt =====
-- `applyPreferencesToJson`, `commitPreferences` and `getPreferencesSettings` of
-- src/app/ConfigManager.cpp.
pub mod RoundTrip
use hypertube.Common.{
  ℤ, pos, at_least_zero, clamp, Bool, true, false, List, [], ◌∷◌, ◌++◌, Option, none, some, ◌>>=◌,
  Text, codes, ◌==◌, text_eq, if◌then◌else◌, is_some,
}
use hypertube.Config.Json.{Json, number_integer, is_object, read_path}
use hypertube.Config.Assign.{assign_all}

-- `PreferencesSettings::UiLayout`
pub record UiLayout : Type 0 where
  pub sidebar_width : ℤ
  pub bottom_panel_height : ℤ
  pub sidebar_collapsed : Bool
  pub selected_main_tab : ℤ
  pub selected_details_tab : ℤ

pub record PreferencesSettings : Type 0 where
  pub download_speed_limit : ℤ
  pub upload_speed_limit : ℤ
  pub theme : ℤ
  pub download_path : Text
  pub enable_dht : Bool
  pub enable_upnp : Bool
  pub enable_nat_pmp : Bool
  pub torznab_enabled : Bool
  pub torznab_url : Text
  pub proxy_enabled : Bool
  pub proxy_type : Text
  pub proxy_host : Text
  pub proxy_port : ℤ
  pub proxy_username : Text
  pub ui : UiLayout

abbrev pub known_proxy_type : Text → Text
known_proxy_type type = if type == codes "http" then codes "http" else codes "socks5"

-- Where each setting stands in the configuration.
abbrev pub at_settings : Text → List Text
at_settings k = codes "settings" ∷ k ∷ []

abbrev pub within_settings : Text → Text → List Text
within_settings section k = codes "settings" ∷ section ∷ k ∷ []

abbrev pub at_ui : Text → List Text
at_ui k = codes "ui" ∷ k ∷ []

module _ {J : Type 0} ⦃o : Json J⦄ where
  -- The assignments to `target`, which is `config["settings"]`, in their order.
  unfoldable pub settings_writes : PreferencesSettings → List (List Text × J)
  settings_writes s =
      (
        within_settings (codes "speed_limits") (codes "download"),
        o.of_int (at_least_zero s.download_speed_limit),
      )
      ∷ (
        within_settings (codes "speed_limits") (codes "upload"),
        o.of_int (at_least_zero s.upload_speed_limit),
      )
      ∷ (at_settings (codes "download_path"), o.of_text s.download_path)
      ∷ (at_settings (codes "enable_dht"), o.of_bool s.enable_dht)
      ∷ (at_settings (codes "enable_upnp"), o.of_bool s.enable_upnp)
      ∷ (at_settings (codes "enable_natpmp"), o.of_bool s.enable_nat_pmp)
      ∷ (within_settings (codes "search") (codes "torznab_enabled"), o.of_bool s.torznab_enabled)
      ∷ (within_settings (codes "search") (codes "torznab_url"), o.of_text s.torznab_url)
      ∷ (within_settings (codes "proxy") (codes "enabled"), o.of_bool s.proxy_enabled)
      ∷ (within_settings (codes "proxy") (codes "type"), o.of_text (known_proxy_type s.proxy_type))
      ∷ (within_settings (codes "proxy") (codes "host"), o.of_text s.proxy_host)
      ∷ (within_settings (codes "proxy") (codes "port"), o.of_int (clamp 1 65535 s.proxy_port))
      ∷ (within_settings (codes "proxy") (codes "username"), o.of_text s.proxy_username)
      ∷ []

  -- The object that `config["ui"]` becomes.
  unfoldable pub ui_object : UiLayout → J
  ui_object ui = o.put (codes "sidebar_width") (o.of_int (clamp 120 600 ui.sidebar_width)) (
      o.put (codes "bottom_panel_height") (o.of_int (clamp 120 1000 ui.bottom_panel_height)) (
        o.put (codes "sidebar_collapsed") (o.of_bool ui.sidebar_collapsed) (
          o.put (codes "selected_main_tab") (o.of_int (at_least_zero ui.selected_main_tab)) (
            o.put (codes "selected_details_tab") (o.of_int (at_least_zero ui.selected_details_tab))
              o.empty_object))))

  -- The first lines: an object with a version.
  unfoldable pub with_version : J → J
  with_version config =
      let root = if is_object config then config else o.empty_object in
      if is_some (o.member (codes "version") root)
      then root
      else o.put (codes "version") (o.of_int (pos 2)) root

  -- `config["settings"]` is made an object if it is none.
  unfoldable pub with_settings : J → J
  with_settings config =
      if elim (o.member (codes "settings") config) [ none ↦ false | some w ↦ is_object w ]
      then config
      else o.put (codes "settings") o.empty_object config

  -- The last assignment is not reached if one of the others throws.
  unfoldable pub then_ui : UiLayout → J × Bool → J × Bool
  unfolding ui_object
  then_ui ui r = if r.1 then (o.put (codes "ui") (ui_object ui) r.0, true) else r

  -- The configuration, and whether nothing threw.
  unfoldable pub apply_preferences : PreferencesSettings → J → J × Bool
  unfolding with_version with_settings then_ui settings_writes
  apply_preferences s config = then_ui s.ui (
      assign_all (settings_writes s)
        (with_settings (o.put (codes "theme") (o.of_int s.theme) (with_version config))))

  -- `value(key, fallback)`, with the look-up of the objects that it is behind; it throws where the
  -- value is of another kind.
  abbrev pub int_at : List Text → ℤ → J → Option ℤ
  int_at path fallback config = elim (read_path path config) [
    | none ↦ some fallback
    | some v ↦ o.as_int v
  ]

  abbrev pub bool_at : List Text → Bool → J → Option Bool
  bool_at path fallback config = elim (read_path path config) [
    | none ↦ some fallback
    | some v ↦ o.as_bool v
  ]

  abbrev pub text_at : List Text → Text → J → Option Text
  text_at path fallback config = elim (read_path path config) [
    | none ↦ some fallback
    | some v ↦ o.as_text v
  ]

  -- `theme` is read only where it is an integer.
  unfoldable pub theme_at : J → Option ℤ
  theme_at config = elim (o.member (codes "theme") config) [
    | none ↦ some (pos 0)
    | some v ↦ elim (o.kind v) [ number_integer ↦ o.as_int v | _ ↦ some (pos 0) ]
  ]

  unfoldable pub get_ui : J → Option UiLayout
  get_ui config = do
    width ← int_at (at_ui (codes "sidebar_width")) (pos 240) config
    height ← int_at (at_ui (codes "bottom_panel_height")) (pos 300) config
    collapsed ← bool_at (at_ui (codes "sidebar_collapsed")) false config
    main_tab ← int_at (at_ui (codes "selected_main_tab")) (pos 0) config
    details_tab ← int_at (at_ui (codes "selected_details_tab")) (pos 0) config
    some record {
      sidebar_width = clamp 120 600 width;
      bottom_panel_height = clamp 120 1000 height;
      sidebar_collapsed = collapsed;
      selected_main_tab = at_least_zero main_tab;
      selected_details_tab = at_least_zero details_tab;
    }

  -- Nothing where a value is of the wrong kind, and the call throws.
  unfoldable pub get_preferences_settings : J → Option PreferencesSettings
  unfolding theme_at get_ui
  get_preferences_settings config = do
    download ← int_at (within_settings (codes "speed_limits") (codes "download")) (pos 0) config
    upload ← int_at (within_settings (codes "speed_limits") (codes "upload")) (pos 0) config
    theme ← theme_at config
    path ← text_at (at_settings (codes "download_path")) (codes "~/Downloads") config
    dht ← bool_at (at_settings (codes "enable_dht")) true config
    upnp ← bool_at (at_settings (codes "enable_upnp")) true config
    natpmp ← bool_at (at_settings (codes "enable_natpmp")) true config
    torznab ← bool_at (within_settings (codes "search") (codes "torznab_enabled")) false config
    url ← text_at (within_settings (codes "search") (codes "torznab_url")) [] config
    proxy ← bool_at (within_settings (codes "proxy") (codes "enabled")) false config
    type ← text_at (within_settings (codes "proxy") (codes "type")) (codes "socks5") config
    host ← text_at (within_settings (codes "proxy") (codes "host")) (codes "127.0.0.1") config
    port ← int_at (within_settings (codes "proxy") (codes "port")) (pos 1080) config
    username ← text_at (within_settings (codes "proxy") (codes "username")) [] config
    ui ← get_ui config
    some record {
      download_speed_limit = at_least_zero download;
      upload_speed_limit = at_least_zero upload;
      theme = theme;
      download_path = path;
      enable_dht = dht;
      enable_upnp = upnp;
      enable_nat_pmp = natpmp;
      torznab_enabled = torznab;
      torznab_url = url;
      proxy_enabled = proxy;
      proxy_type = type;
      proxy_host = host;
      proxy_port = clamp 1 65535 port;
      proxy_username = username;
      ui = ui;
    }
