-- ===== src/Config/Defaults.antt =====
-- The default configuration and the migration of src/app/ConfigManager.cpp: `createDefaultConfig`,
-- `applyMissingDefaults`, `ensureDefaultConfigUnlocked`, `migrateConfigUnlocked`, `applyDefaultConfig`.
pub mod Kept
use hypertube.Common.{
  ℤ, pos, Bool, true, false, not, ◌&&◌, List, [], ◌∷◌, Option, none, some, ◌>>=◌, Text, codes,
  if◌then◌else◌, is_some, get_or_else, is_empty, ◌++◌, int_beq,
}
use hypertube.Config.Json.{Json, object, is_object, put_path}
use hypertube.Config.Assign.{assign_all}
use hypertube.Config.Preferences.{at_ui}

module _ {J : Type 0} ⦃o : Json J⦄ where
  -- The values below `settings`, each with its path there.
  unfoldable pub default_settings : List (List Text × J)
  default_settings =
      (codes "speed_limits" ∷ codes "download" ∷ [], o.of_int (pos 0))
      ∷ (codes "speed_limits" ∷ codes "upload" ∷ [], o.of_int (pos 0))
      ∷ (codes "download_path" ∷ [], o.of_text (codes "~/Downloads"))
      ∷ (codes "enable_dht" ∷ [], o.of_bool true)
      ∷ (codes "enable_upnp" ∷ [], o.of_bool true)
      ∷ (codes "enable_natpmp" ∷ [], o.of_bool true)
      ∷ (codes "search" ∷ codes "torznab_enabled" ∷ [], o.of_bool false)
      ∷ (
        codes "search" ∷ codes "torznab_url" ∷ [],
        o.of_text (codes "http://127.0.0.1:9696/api/v1/indexer/all/results/torznab/api"),
      )
      ∷ (codes "proxy" ∷ codes "enabled" ∷ [], o.of_bool false)
      ∷ (codes "proxy" ∷ codes "type" ∷ [], o.of_text (codes "socks5"))
      ∷ (codes "proxy" ∷ codes "host" ∷ [], o.of_text (codes "127.0.0.1"))
      ∷ (codes "proxy" ∷ codes "port" ∷ [], o.of_int (pos 1080))
      ∷ (codes "proxy" ∷ codes "username" ∷ [], o.of_text [])
      ∷ []

  unfoldable pub default_ui : List (List Text × J)
  default_ui =
      (codes "sidebar_width" ∷ [], o.of_int (pos 240))
      ∷ (codes "bottom_panel_height" ∷ [], o.of_int (pos 300))
      ∷ (codes "sidebar_collapsed" ∷ [], o.of_bool false)
      ∷ (codes "selected_main_tab" ∷ [], o.of_int (pos 0))
      ∷ (codes "selected_details_tab" ∷ [], o.of_int (pos 0))
      ∷ []

  -- The object with the values at their paths.
  abbrev pub built : List (List Text × J) → J
  built writes = (assign_all writes o.empty_object).0

  unfoldable pub create_default_config : J
  unfolding default_settings default_ui
  create_default_config = o.put (codes "ui") (built default_ui) (
      o.put (codes "settings") (built default_settings)
        (o.put (codes "version") (o.of_int (pos 2)) o.empty_object))

  -- One value of the defaults: it is put where its path ends, if nothing is there and only objects are
  -- before it.
  unfoldable pub fill : List Text → J → J → J
  fill [] v j = j
  fill (k ∷ []) v j = if is_object j && not (is_some (o.member k j)) then o.put k v j else j
  fill (k ∷ l ∷ ks) v j = if not (is_object j) then j else elim (o.member k j) [
    | none ↦ o.put k (built ((l ∷ ks, v) ∷ [])) j
    | some w ↦ let filled = fill (l ∷ ks) v w in if is_object w then o.put k filled j else j
  ]

  -- `applyMissingDefaults`, over the values of the defaults in their order.
  unfoldable pub apply_missing_defaults : List (List Text × J) → J → J
  unfolding fill
  apply_missing_defaults [] target = target
  apply_missing_defaults ((path, v) ∷ defaults) target =
      apply_missing_defaults defaults (fill path v target)

  -- `config[key]` is made an object if it is none, or only if it is missing.
  abbrev pub or_object : Text → J → J
  or_object key config =
      if elim (o.member key config) [ none ↦ false | some w ↦ is_object w ]
      then config
      else o.put key o.empty_object config

  abbrev pub or_member : Text → J → J → J
  or_member key v config = if is_some (o.member key config) then config else o.put key v config

  -- The defaults are filled in below `config[key]`.
  abbrev pub fill_below : Text → List (List Text × J) → J → J
  fill_below key defaults config = elim (o.member key config) [
    | none ↦ config
    | some w ↦ o.put key (apply_missing_defaults defaults w) config
  ]

  unfoldable pub ensure_default_config : J → J
  unfolding apply_missing_defaults default_settings default_ui
  ensure_default_config config = fill_below (codes "ui") default_ui (
      or_object (codes "ui") (
        fill_below (codes "settings") default_settings (
          or_member (codes "settings") o.empty_object
            (or_member (codes "version") (o.of_int (pos 2)) config))))

  -- A value of the old configuration goes to its place in the new one, if it is there.
  abbrev pub preserve : List Text → Text → J → J → J
  preserve path key old config = elim (o.member key old) [
    | none ↦ config
    | some v ↦ (assign_all ((path, v) ∷ []) config).0
  ]

  abbrev pub wrapped : J → J
  wrapped old = preserve (codes "torrents" ∷ []) (codes "torrents") old (
      preserve (codes "settings" ∷ codes "enable_natpmp" ∷ []) (codes "enable_natpmp") old (
        preserve (codes "settings" ∷ codes "enable_upnp" ∷ []) (codes "enable_upnp") old (
          preserve (codes "settings" ∷ codes "enable_dht" ∷ []) (codes "enable_dht") old (
            preserve (codes "settings" ∷ codes "download_path" ∷ []) (codes "download_path") old (
              preserve (codes "settings" ∷ codes "speed_limits" ∷ []) (codes "speed_limits") old
                create_default_config)))))

  -- From version 0, below `settings`; the other values of such a configuration are lost.
  unfoldable pub migrate_unversioned : J → J
  unfolding create_default_config
  migrate_unversioned config =
      o.put (codes "version") (o.of_int (pos 1))
        (if is_some (o.member (codes "settings") config) then config else wrapped config)

  -- `migrateConfigUnlocked` to the version 2, from a version below it.
  unfoldable pub migrate_config : ℤ → J → J
  unfolding migrate_unversioned
  migrate_config from config =
      let wrapped_config = if int_beq from (pos 0) then migrate_unversioned config else config in
      o.put (codes "version") (o.of_int (pos 2)) (or_object (codes "ui") wrapped_config)

-- The download path of `applyDefaultConfig`, from the variable of the environment that the system has
-- for the directory of the user.
unfoldable pub default_download_path : Bool → Option Text → Text
default_download_path windows home =
    let known = get_or_else [] home in
    if windows
    then (if not (is_empty known)
        then known ++ codes "\\Downloads"
        else codes "C:\\Users\\Public\\Downloads")
    else (if not (is_empty known) then known ++ codes "/Downloads" else codes "/var/tmp")

module _ {J : Type 0} ⦃o : Json J⦄ where
  unfoldable pub apply_default_config : Bool → Option Text → J
  unfolding default_download_path create_default_config
  apply_default_config windows home =
      (assign_all
        ((
          codes "settings" ∷ codes "download_path" ∷ [],
          o.of_text (default_download_path windows home),
        )
          ∷ [])
        create_default_config).0
