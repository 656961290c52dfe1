-- ===== src/Tests/Views.antt =====
-- Runs of the status cache, the restoration, the commands, the details and the list of torrents.
use hypertube.Common.{
  ℕ, ◌≡◌, refl, inl, inr, Bool, ◌==◌, text_eq, if◌then◌else◌, true, false, List, [], ◌∷◌, ◌++◌,
  Option, none, some, Text, codes, lookup, is_some, Result,
}
use hypertube.Identity.{id}
use hypertube.Tests.Identity.{two_hashes}
use hypertube.Tests.Torrents.{bool_eq, willing_world, one_torrent}
use hypertube.Torrents.Registry.{Registry, delete_data, remove_torrent}
use hypertube.Torrents.Status.{
  StatusCache, get_cached_status, refresh_status_cache, expected, IsSnapshot,
  get_cached_status-refresh_status_cache,
}
use hypertube.Torrents.Restore.{
  TorrentConfigData, Resume, IsResumed, add_torrents_from_config, add_torrents_from_config_resumed,
}
use hypertube.Torrents.Commands.{HandleCall}
use hypertube.Torrents.Details.{DetailRequest, files, Details}
use hypertube.Torrents.Details.Queue.{
  DetailEvent, asked, taken, published, detail_run, IsQueued, detail_run-IsQueued,
}
use hypertube.TorrentList.{TorrentList, TorrentRow, seeding, hash_for_id}
use hypertube.TorrentList.Resolve.{nothing-IsNamed, hash_for_id-id}

-- Handles are numbers; 7 is valid, and its status is refused.
abbrev valid_seven : ℕ → Bool
valid_seven d = true

abbrev refused : ℕ → Option ℕ
refused d = none

abbrev snapshot : List (Bool × ℕ)
snapshot = (true, 7) ∷ []

abbrev old_cache : StatusCache Bool ℕ
old_cache = record { status_cache = (true, 5) ∷ []; status_revision = 1; last_cache_refresh = 100 }

snapshot-IsSnapshot : IsSnapshot valid_seven refused snapshot
unfolding lookup
snapshot-IsSnapshot = (refl, tt)

get_cached_status-refresh_status_cache_example :
    get_cached_status true (refresh_status_cache valid_seven refused 700 snapshot old_cache)
    ≡ expected valid_seven refused true snapshot old_cache.status_cache
get_cached_status-refresh_status_cache_example =
    get_cached_status-refresh_status_cache valid_seven refused true 700 snapshot old_cache
      snapshot-IsSnapshot

abbrev saved : TorrentConfigData
saved = record {
  magnet_uri = [];
  save_path = codes "~";
  torrent_file_path = [];
  resume_data = codes "d4:infoe";
}

abbrev a_link : TorrentConfigData
a_link = record saved { magnet_uri = codes "magnet:?xt"; resume_data = [] }

abbrev locked : TorrentConfigData
locked = record saved { torrent_file_path = codes "/locked"; resume_data = [] }

-- All resume data are those of the torrent `false`.
abbrev resumed : Resume Bool ℕ
resumed resume_data save_path = inr (9, false)

-- One path cannot be examined.
abbrev no_file : Text → Option Bool
no_file path = if path == codes "/locked" then none else some false

saved-IsResumed : IsResumed willing_world resumed no_file saved false
saved-IsResumed = (refl, (9, refl))

one_torrent_there : lookup true one_torrent.torrents ≡ some 7
unfolding lookup
one_torrent_there = refl

add_torrents_from_config_resumed_example :
    is_some (
      lookup false
        (add_torrents_from_config willing_world resumed no_file
          ((a_link ∷ []) ++ saved ∷ locked ∷ [])
          one_torrent).1.torrents)
    ≡ true
add_torrents_from_config_resumed_example =
    add_torrents_from_config_resumed willing_world resumed no_file (a_link ∷ []) (locked ∷ []) saved
      false one_torrent (inl refl, tt) saved-IsResumed

abbrev obeys : ℕ → HandleCall → Option Text
obeys d call = none

abbrev file_request : DetailRequest Bool
file_request = record { hash = true; section = files }

abbrev no_details : Details Bool ℕ
no_details = record {
  detail_requests = [];
  pending_detail_requests = [];
  detail_cache = [];
  detail_revisions = [];
  detail_last_refresh = [];
  stop_detail_worker = false;
}

abbrev detail_events : List (DetailEvent Bool ℕ)
detail_events =
    asked 0 file_request ∷ asked 1 file_request ∷ taken ∷ published file_request (some 3) 20 ∷ []

detail_run-IsQueued_example : IsQueued (detail_run no_details detail_events)
detail_run-IsQueued_example = detail_run-IsQueued no_details detail_events (λ q. refl, tt)

abbrev new_list : TorrentList Bool
new_list = record { hashes_by_id = []; registry_revision = 0 }

seven_there : lookup true snapshot ≡ some 7
unfolding lookup
seven_there = refl

hash_for_id-id_example : hash_for_id valid_seven (id true) 1 snapshot new_list ≡ some true
hash_for_id-id_example =
    hash_for_id-id valid_seven true 7 1 snapshot new_list nothing-IsNamed seven_there refl

abbrev rows : List TorrentRow
rows =
    record { name = codes "film"; state_label = codes "Seeding"; state = seeding; active = true }
    ∷ []

abbrev remove_data : Bool → Registry Bool ℕ → Result × Registry Bool ℕ
remove_data h s = remove_torrent willing_world h delete_data s
