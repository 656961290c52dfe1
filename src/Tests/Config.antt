-- ===== src/Tests/Config.antt =====
-- Runs of the configuration.
use hypertube.Common.{
  arith, ℕ, pos, negsuc, at_least_zero, ◌≡◌, refl, Bool, true, false, [], ◌∷◌, ◌++◌, map, none,
  some, Text, codes, text_beq, Assoc, lookup, insert, All, ok,
}
use hypertube.Identity.Hex.{hex, lower_digit}
use hypertube.Config.Json.{parts, read_path, put_path, opened, inside}
use hypertube.Config.Assign.{assign_all}
use hypertube.Config.Preferences.{
  UiLayout, PreferencesSettings, apply_preferences, settings_writes, with_version, with_settings,
  then_ui, get_preferences_settings,
}
use hypertube.Config.Preferences.RoundTrip.{normal, get_preferences_settings-apply_preferences}
use hypertube.Config.Validate.{validate_config, validate_config-get_download_speed_limit}
use hypertube.Config.Options.{
  get_config_version, get_download_speed_limit, speed_limit, set_download_speed_limit, set_setting,
}
use hypertube.Config.Options.Written.{read_path-set_setting, get-set_download_speed_limit}
use hypertube.Config.Files.{
  discard, Disk, FileOperations, durable_write_file, back_up, replace_target, Durable,
  durable_write_file-Durable,
}
use hypertube.Torrents.Restore.{TorrentConfigData}
use hypertube.Config.Load.{load_config}
use hypertube.Config.Load.Accepted.{load_config-Keeps}
use hypertube.Config.Defaults.Kept.{Keeps}
use hypertube.Config.Torrents.{
  parsed, unreadable, previous_resume_data, note_all, note_resume_data, string_member,
  torrents_json, torrents_file, save_torrents, load_torrents,
}
use hypertube.Config.Torrents.RoundTrip.{reloaded, digits_of, IsResumeData, IsRestorable}
use hypertube.Config.Torrents.Reload.{
  found, load_torrents-save_torrents, load_torrents_after_removal,
}
use hypertube.Tests.Values.{
  Value, nothing, flag, number, text, members, values, a_value, no_values, no_members, a_member,
  value_json,
}

abbrev pub wide_layout : UiLayout
wide_layout = record {
  sidebar_width = pos 900;
  bottom_panel_height = pos 300;
  sidebar_collapsed = true;
  selected_main_tab = negsuc 0;
  selected_details_tab = pos 1;
}

abbrev pub sample_preferences : PreferencesSettings
sample_preferences = record {
  download_speed_limit = negsuc 4;
  upload_speed_limit = pos 100;
  theme = pos 2;
  download_path = codes "/data";
  enable_dht = true;
  enable_upnp = false;
  enable_nat_pmp = true;
  torznab_enabled = false;
  torznab_url = codes "http://host/";
  proxy_enabled = false;
  proxy_type = codes "socks4";
  proxy_host = codes "127.0.0.1";
  proxy_port = pos 70000;
  proxy_username = [];
  ui = wide_layout;
}

-- A configuration whose settings are no object.
abbrev spoilt_config : Value
spoilt_config = members (a_member (codes "settings") (number (pos 1)) no_members)

applied : (apply_preferences sample_preferences spoilt_config).1 ≡ true
unfolding apply_preferences assign_all settings_writes with_version with_settings then_ui put_path
    opened inside text_beq
applied = refl

get_preferences_settings-apply_preferences_example :
    get_preferences_settings (apply_preferences sample_preferences spoilt_config).0
    ≡ some (normal sample_preferences)
get_preferences_settings-apply_preferences_example =
    get_preferences_settings-apply_preferences sample_preferences spoilt_config applied

abbrev limited_config : Value
limited_config = members (
    a_member (codes "speed_limits")
      (members (a_member (codes "download") (number (pos 7)) no_members))
      (a_member (codes "ui")
        (members (a_member (codes "sidebar_width") (number (pos 200)) no_members)) no_members))

limited_is_valid : validate_config limited_config ≡ true
unfolding validate_config text_beq
limited_is_valid = refl

validate_config-get_download_speed_limit_example :
    (n : ℕ) × (get_download_speed_limit limited_config ≡ some (pos n))
validate_config-get_download_speed_limit_example =
    validate_config-get_download_speed_limit limited_config limited_is_valid

limit_set : (set_download_speed_limit (pos 9) limited_config).1 ≡ true
unfolding set_download_speed_limit set_setting assign_all put_path opened inside text_beq
limit_set = refl

get-set_download_speed_limit_example :
    get_download_speed_limit (set_download_speed_limit (pos 9) limited_config).0
    ≡ elim (read_path (codes "speed_limits" ∷ codes "download" ∷ []) limited_config) [
      | none ↦ some (at_least_zero (pos 9))
      | some v ↦ value_json.as_int v
    ]
get-set_download_speed_limit_example = get-set_download_speed_limit (pos 9) limited_config limit_set

-- The limit at the root is the one that is read, not the one that was set.
root_limit :
    get_download_speed_limit (set_download_speed_limit (pos 9) limited_config).0 ≡ some (pos 7)
unfolding get_download_speed_limit speed_limit read_path set_download_speed_limit set_setting
    assign_all put_path opened inside text_beq
root_limit = refl

dht_set : (set_setting (codes "enable_dht" ∷ []) (flag true) limited_config).1 ≡ true
unfolding set_setting assign_all put_path opened inside text_beq
dht_set = refl

apart : parts (codes "enable_dht" ∷ []) (codes "theme" ∷ []) ≡ true
unfolding text_beq
apart = refl

abbrev with_dht : Value
with_dht = (set_setting (codes "enable_dht" ∷ []) (flag true) limited_config).0

read_path-set_setting_example :
    (read_path (codes "settings" ∷ codes "enable_dht" ∷ []) with_dht ≡ some (flag true))
    × (read_path (codes "settings" ∷ codes "theme" ∷ []) with_dht
        ≡ read_path (codes "settings" ∷ codes "theme" ∷ []) limited_config)
read_path-set_setting_example =
    read_path-set_setting (codes "enable_dht" ∷ []) (codes "theme" ∷ []) (flag true) limited_config
      apart dht_set

-- Two torrents: with resume data, and with those of an earlier save.
abbrev fresh : TorrentConfigData
fresh = record {
  magnet_uri = [];
  save_path = codes "/data";
  torrent_file_path = [];
  resume_data = 0 ∷ 255 ∷ [];
}

abbrev earlier : TorrentConfigData
earlier = record {
  magnet_uri = codes "magnet:a";
  save_path = codes "/data";
  torrent_file_path = [];
  resume_data = [];
}

abbrev torrent_config : Value
torrent_config = members (
    a_member (codes "torrents")
      (values (
        a_value
          (members (
            a_member (codes "magnet_uri") (text (codes "magnet:a"))
              (a_member (codes "resume_data") (text (codes "0aff")) no_members)))
          no_values))
      no_members)

abbrev known_data : Assoc Text Text
known_data = (codes "magnet:a", 10 ∷ 255 ∷ []) ∷ []

abbrev earlier_data : Assoc Text Text
earlier_data = digits_of known_data

known-Sound : All (λ (e : Text × Text). IsResumeData e.1) known_data
known-Sound = (((omega arith, (omega arith, tt)), omega arith), tt)

noted : previous_resume_data torrent_config ≡ some earlier_data
unfolding previous_resume_data note_all note_resume_data string_member text_beq lookup insert hex
    lower_digit
noted = refl

restorable : All (IsRestorable known_data) (fresh ∷ earlier ∷ [])
unfolding reloaded text_beq lookup
restorable = (
  record {
    has_path = refl;
    has_source = refl;
    has_bytes = ((omega arith, (omega arith, tt)), omega arith);
  },
  (record { has_path = refl; has_source = refl; has_bytes = (tt, omega arith) }, tt),
)

abbrev saved_torrents : Value × Bool × Value
saved_torrents = (
  (assign_all ((codes "torrents" ∷ [], torrents_json earlier_data (fresh ∷ earlier ∷ [])) ∷ [])
      torrent_config).0,
  true,
  torrents_file (torrents_json earlier_data (fresh ∷ earlier ∷ [])),
)

saved_so : save_torrents (fresh ∷ earlier ∷ []) torrent_config ≡ some saved_torrents
unfolding save_torrents previous_resume_data note_all note_resume_data string_member text_beq
    assign_all put_path opened inside lookup insert hex lower_digit
saved_so = refl

load_torrents-save_torrents_example :
    load_torrents (parsed saved_torrents.2 ∷ unreadable [] ∷ []) nothing
    ≡ (ok, map (reloaded known_data) (fresh ∷ earlier ∷ []))
load_torrents-save_torrents_example =
    load_torrents-save_torrents Value known_data fresh (earlier ∷ []) torrent_config nothing
      saved_torrents (unreadable [] ∷ []) noted known-Sound restorable saved_so

abbrev saved_none : Value × Bool × Value
saved_none = (
  (assign_all ((codes "torrents" ∷ [], nothing) ∷ []) torrent_config).0,
  true,
  torrents_file nothing,
)

saved_none_so : save_torrents [] torrent_config ≡ some saved_none
unfolding save_torrents torrents_json previous_resume_data note_all note_resume_data string_member
    text_beq assign_all put_path opened inside lookup
saved_none_so = refl

abbrev all_well : FileOperations Value
all_well = record {
  create_directories = true;
  open_and_write_temp = true;
  left_in_temp = none;
  flush_temp = true;
  exists = true;
  copy_file = true;
  left_in_backup = none;
  flush_backup = true;
  replace_or_rename = true;
  sync_parent_directory = true;
  remove = true;
}

abbrev empty_disk : Disk Value
empty_disk = record { target = none; backup = none; temporary = none }

abbrev first_write : Bool × Disk Value
first_write = durable_write_file all_well saved_torrents.2 empty_disk

writes :
    (first_write.0 ≡ true) × ((durable_write_file all_well saved_none.2 first_write.1).0 ≡ true)
unfolding durable_write_file back_up replace_target discard
writes = (refl, refl)

load_torrents_after_removal_example :
    let d = (durable_write_file all_well saved_none.2 first_write.1).1 in
    load_torrents (found d.target ∷ found d.backup ∷ []) nothing
    ≡ (ok, map (reloaded known_data) (fresh ∷ earlier ∷ []))
load_torrents_after_removal_example =
    load_torrents_after_removal Value known_data earlier_data fresh (earlier ∷ []) torrent_config
      torrent_config nothing saved_torrents saved_none all_well all_well empty_disk noted
      known-Sound noted restorable saved_so saved_none_so writes.0 writes.1 refl

durable_write_file-Durable_example :
    Durable all_well saved_none.2 first_write.1
      (durable_write_file all_well saved_none.2 first_write.1)
durable_write_file-Durable_example = durable_write_file-Durable all_well saved_none.2 first_write.1

abbrev versioned_config : Value
versioned_config = members (
    a_member (codes "version") (number (pos 2))
      (a_member (codes "theme") (number (pos 3)) no_members))

versioned :
    (validate_config versioned_config ≡ true) × (get_config_version versioned_config ≡ some (pos 2))
unfolding validate_config get_config_version read_path text_beq
versioned = (refl, refl)

spoilt_is_invalid : validate_config (number (pos 1)) ≡ false
unfolding validate_config
spoilt_is_invalid = refl

load_config-Keeps_example :
    let t = load_config true [] (
      ((codes "settings.json", parsed (number (pos 1))) ∷ [])
      ++ ((codes "settings.json.bak", parsed versioned_config) ∷ [])) in
    (t.0 ≡ ok) × Keeps versioned_config t.1
load_config-Keeps_example =
    load_config-Keeps [] (codes "settings.json.bak") versioned_config
      ((codes "settings.json", parsed (number (pos 1))) ∷ []) [] (spoilt_is_invalid, tt) versioned.0
      versioned.1
