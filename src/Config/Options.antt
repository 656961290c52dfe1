-- ===== src/Config/Options.antt =====
-- The setters and getters of src/app/ConfigManager.cpp for one value each. A getter gives nothing
-- where it throws, since the value is of another kind.
pub mod Written
use hypertube.Common.{
  ℤ, pos, at_least_zero, clamp, Bool, true, false, List, [], ◌∷◌, Option, none, some, ◌>>=◌, Text,
  codes, ◌==◌, text_eq, if◌then◌else◌, is_some,
}
use hypertube.Config.Json.{Json, null, string, number_integer, number_float, object, read_path}
use hypertube.Config.Assign.{assign_all}
use hypertube.Config.Preferences.{
  known_proxy_type, at_settings, within_settings, int_at, bool_at, text_at,
}

-- The names of the first versions' themes.
unfoldable pub theme_named : Text → ℤ
theme_named name =
    if name == codes "ocean"
    then pos 1
    else if name == codes "nord"
    then pos 2
    else if name == codes "dracula"
    then pos 3
    else if name == codes "cyberpunk"
    then pos 4
    else pos 0

module _ {J : Type 0} ⦃o : Json J⦄ where
  -- `ensureSettingsStructure`, and the assignment below `config["settings"]`.
  unfoldable pub set_setting : List Text → J → J → J × Bool
  set_setting path v config =
      if is_some (o.member (codes "settings") config)
      then assign_all ((codes "settings" ∷ path, v) ∷ []) config
      else assign_all ((codes "settings" ∷ [], o.empty_object) ∷ (codes "settings" ∷ path, v) ∷ [])
          config

  unfoldable pub set_download_speed_limit : ℤ → J → J × Bool
  unfolding set_setting
  set_download_speed_limit n =
      set_setting (codes "speed_limits" ∷ codes "download" ∷ []) (o.of_int (at_least_zero n))

  unfoldable pub set_upload_speed_limit : ℤ → J → J × Bool
  unfolding set_setting
  set_upload_speed_limit n =
      set_setting (codes "speed_limits" ∷ codes "upload" ∷ []) (o.of_int (at_least_zero n))

  unfoldable pub set_download_path : Text → J → J × Bool
  unfolding set_setting
  set_download_path path = set_setting (codes "download_path" ∷ []) (o.of_text path)

  unfoldable pub set_enable_dht : Bool → J → J × Bool
  unfolding set_setting
  set_enable_dht enable = set_setting (codes "enable_dht" ∷ []) (o.of_bool enable)

  unfoldable pub set_enable_upnp : Bool → J → J × Bool
  unfolding set_setting
  set_enable_upnp enable = set_setting (codes "enable_upnp" ∷ []) (o.of_bool enable)

  unfoldable pub set_enable_natpmp : Bool → J → J × Bool
  unfolding set_setting
  set_enable_natpmp enable = set_setting (codes "enable_natpmp" ∷ []) (o.of_bool enable)

  unfoldable pub set_torznab_url : Text → J → J × Bool
  unfolding set_setting
  set_torznab_url url = set_setting (codes "search" ∷ codes "torznab_url" ∷ []) (o.of_text url)

  unfoldable pub set_torznab_enabled : Bool → J → J × Bool
  unfolding set_setting
  set_torznab_enabled enable =
      set_setting (codes "search" ∷ codes "torznab_enabled" ∷ []) (o.of_bool enable)

  unfoldable pub set_proxy_enabled : Bool → J → J × Bool
  unfolding set_setting
  set_proxy_enabled enable = set_setting (codes "proxy" ∷ codes "enabled" ∷ []) (o.of_bool enable)

  unfoldable pub set_proxy_type : Text → J → J × Bool
  unfolding set_setting
  set_proxy_type type =
      set_setting (codes "proxy" ∷ codes "type" ∷ []) (o.of_text (known_proxy_type type))

  unfoldable pub set_proxy_host : Text → J → J × Bool
  unfolding set_setting
  set_proxy_host host = set_setting (codes "proxy" ∷ codes "host" ∷ []) (o.of_text host)

  unfoldable pub set_proxy_port : ℤ → J → J × Bool
  unfolding set_setting
  set_proxy_port port =
      set_setting (codes "proxy" ∷ codes "port" ∷ []) (o.of_int (clamp 1 65535 port))

  unfoldable pub set_proxy_username : Text → J → J × Bool
  unfolding set_setting
  set_proxy_username username =
      set_setting (codes "proxy" ∷ codes "username" ∷ []) (o.of_text username)

  unfoldable pub set_theme : ℤ → J → J × Bool
  set_theme index config = assign_all ((codes "theme" ∷ [], o.of_int index) ∷ []) config

  -- A limit at the root, where the first versions had it, comes before that in the settings.
  unfoldable pub speed_limit : Text → J → Option ℤ
  speed_limit key config = elim (read_path (codes "speed_limits" ∷ key ∷ []) config) [
    | some v ↦ o.as_int v
    | none ↦ int_at (within_settings (codes "speed_limits") key) (pos 0) config
  ]

  unfoldable pub get_download_speed_limit : J → Option ℤ
  unfolding speed_limit
  get_download_speed_limit = speed_limit (codes "download")

  unfoldable pub get_upload_speed_limit : J → Option ℤ
  unfolding speed_limit
  get_upload_speed_limit = speed_limit (codes "upload")

  unfoldable pub get_download_path : J → Option Text
  get_download_path = text_at (at_settings (codes "download_path")) (codes "~/Downloads")

  unfoldable pub get_enable_dht : J → Option Bool
  get_enable_dht = bool_at (at_settings (codes "enable_dht")) true

  unfoldable pub get_enable_upnp : J → Option Bool
  get_enable_upnp = bool_at (at_settings (codes "enable_upnp")) true

  unfoldable pub get_enable_natpmp : J → Option Bool
  get_enable_natpmp = bool_at (at_settings (codes "enable_natpmp")) true

  -- `config["settings"][section]`, if it is there; `value` throws where it is no object.
  unfoldable pub section_of : Text → J → Option (Option J)
  section_of section config = elim (read_path (at_settings section) config) [
    | none ↦ some none
    | some w ↦ elim (o.kind w) [ object ↦ some (some w) | _ ↦ none ]
  ]

  abbrev value_in : {A : Type 0} → Text → Text → A → (J → Option A) → J → Option A
  value_in section key fallback convert config = section_of section config >>= λ found. elim found [
    | none ↦ some fallback
    | some w ↦ elim (o.member key w) [ none ↦ some fallback | some v ↦ convert v ]
  ]

  unfoldable pub get_torznab_url : J → Option Text
  unfolding section_of
  get_torznab_url = value_in (codes "search") (codes "torznab_url") [] o.as_text

  unfoldable pub get_torznab_enabled : J → Option Bool
  unfolding section_of
  get_torznab_enabled = value_in (codes "search") (codes "torznab_enabled") false o.as_bool

  unfoldable pub get_proxy_enabled : J → Option Bool
  unfolding section_of
  get_proxy_enabled = value_in (codes "proxy") (codes "enabled") false o.as_bool

  unfoldable pub get_proxy_type : J → Option Text
  unfolding section_of
  get_proxy_type = value_in (codes "proxy") (codes "type") (codes "socks5") o.as_text

  unfoldable pub get_proxy_host : J → Option Text
  unfolding section_of
  get_proxy_host = value_in (codes "proxy") (codes "host") (codes "127.0.0.1") o.as_text

  unfoldable pub get_proxy_port : J → Option ℤ
  unfolding section_of
  get_proxy_port config =
      value_in (codes "proxy") (codes "port") (pos 1080) o.as_int config >>= λ port.
      some (clamp 1 65535 port)

  unfoldable pub get_proxy_username : J → Option Text
  unfolding section_of
  get_proxy_username = value_in (codes "proxy") (codes "username") [] o.as_text

  unfoldable pub get_config_version : J → Option ℤ
  get_config_version = int_at (codes "version" ∷ []) (pos 0)

  unfoldable pub get_theme : J → Option ℤ
  unfolding theme_named
  get_theme config = elim (o.member (codes "theme") config) [
    | none ↦ some (pos 0)
    | some v ↦ elim (o.kind v) [
      | string ↦ o.as_text v >>= λ name. some (theme_named name)
      | number_integer ↦ o.as_int v
      | number_float ↦ o.as_int v
      | _ ↦ some (pos 0)
    ]
  ]
