-- ===== src/Tests/Torrents.antt =====
-- Runs of the collection of torrents, over hashes of two torrents and numbers for handles.
use hypertube.Common.{
  ℕ, ◌≡◌, ◌↔◌, refl, inr, Bool, true, false, [], ◌∷◌, none, some, arith, codes, Eq, lookup, is_some,
}
use hypertube.Tests.Identity.{two_hashes}
use hypertube.Torrents.Registry.{Registry, World, delete_data, validate_add_paths, remove_torrent}
use hypertube.Torrents.Registry.Calls.{removes, call}
use hypertube.Torrents.Registry.Removal.{IsTidy, Removed, remove_torrent-Removed, call-IsTidy}

abbrev pub same : Bool → Bool → Bool
same true b = b
same false true = false
same false false = true

pub same_iff : (a b : Bool) → (same a b ≡ true) ↔ (a ≡ b)
same_iff true true = (λ e. refl, λ e. refl)
same_iff true false = ground arith
same_iff false true = ground arith
same_iff false false = (λ e. refl, λ e. refl)

instance abbrev pub bool_eq : Eq Bool
bool_eq = record { beq = same; beq_iff = same_iff }

-- Every file is the torrent `true`, and everything is granted.
abbrev pub willing_world : World Bool ℕ
willing_world = record {
  is_regular_file = λ path. true;
  expand_user_path = λ path. path;
  make_directory = λ path. true;
  torrent_info = λ path. inr record { info_hashes = true; name = codes "film" };
  parse_magnet_uri = λ uri. inr record { info_hashes = true; name = codes "film" };
  add_torrent = λ h. inr (7, h);
  status_error = λ d. none;
  is_valid = λ d. true;
  remove_file = λ path. [];
}

abbrev pub one_torrent : Registry Bool ℕ
one_torrent = record {
  torrents = (true, 7) ∷ [];
  torrent_file_paths = (true, codes "film.torrent") ∷ [];
  torrent_display_names = (true, codes "film") ∷ [];
  torrent_collection_revision = 1;
  cache_stale = true;
}

one_torrent-IsTidy : IsTidy one_torrent
unfolding lookup
one_torrent-IsTidy true e = ground arith
one_torrent-IsTidy false e = (refl, refl)

remove_torrent-Removed_example :
    Removed willing_world true delete_data one_torrent
      (remove_torrent willing_world true delete_data one_torrent)
remove_torrent-Removed_example = remove_torrent-Removed willing_world true delete_data one_torrent

call-IsTidy_example : IsTidy (call willing_world one_torrent (removes true delete_data)).1
call-IsTidy_example =
    call-IsTidy willing_world one_torrent (removes true delete_data) one_torrent-IsTidy

willing_paths :
    validate_add_paths willing_world (codes "~") (some (codes "film.torrent")) ≡ inr (codes "~")
unfolding validate_add_paths
willing_paths = refl

film_known : is_some (lookup true one_torrent.torrents) ≡ true
unfolding lookup
film_known = refl

remove_other_still :
    (call willing_world one_torrent (removes false delete_data)).1.torrent_collection_revision ≡ 1
unfolding call remove_torrent lookup
remove_other_still = refl
