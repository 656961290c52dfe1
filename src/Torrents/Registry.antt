-- ===== src/Torrents/Registry.antt =====
-- The collection of torrents: `validateAddPaths`, `addTorrent`, `addMagnetTorrent`,
-- `removeTorrent`, `executeCommand` and `getTorrentSnapshot`. `H` is `lt::info_hash_t`, `D` is
-- `lt::torrent_handle`; the file system and libtorrent answer through `World`.
pub mod Calls
pub mod Revision
pub mod Removal
use hypertube.Common.{
  ℕ, ◌+◌, ◌%◌, ◌^◌, Bool, true, false, not, ◌&&◌, ◌||◌, List, [], ◌∷◌, ◌++◌, Option, none, some,
  ◌⊎◌, inl, inr, Text, codes, msg, if◌then◌else◌, is_empty, is_some, get_or_else, map, Eq, Assoc,
  lookup, insert, emplace, remove, starts_with, length, Result, ok, failure, invalid_input,
  not_found, duplicate, storage, unavailable, partial, internal,
}
use hypertube.Identity.{InfoHash}

pub record Registry (H D : Type 0) : Type 0 where
  pub torrents : Assoc H D
  pub torrent_file_paths : Assoc H Text
  pub torrent_display_names : Assoc H Text
  pub torrent_collection_revision : ℕ
  -- `lastCacheRefresh` is the zero time.
  pub cache_stale : Bool

-- What a file or a magnet link says of its torrent: the info hash and the name.
pub record Metadata (H : Type 0) : Type 0 where
  pub info_hashes : H
  pub name : Text

-- The answers of the file system and of libtorrent in one call; the left of a sum is the text of an
-- exception.
pub record World (H D : Type 0) : Type 0 where
  pub is_regular_file : Text → Bool
  pub expand_user_path : Text → Text
  pub make_directory : Text → Bool
  pub torrent_info : Text → Text ⊎ Metadata H
  pub parse_magnet_uri : Text → Text ⊎ Metadata H
  pub add_torrent : H → Text ⊎ (D × H)
  -- The text of the exception that the query of the new torrent's name throws, if it does.
  pub status_error : D → Option Text
  pub is_valid : D → Bool
  -- The attempt to remove the file: the text of the error, empty if there is none.
  pub remove_file : Text → Text

pub data TorrentRemovalMode : Type 0 where
  keep_all_files delete_data delete_source_torrent delete_data_and_source_torrent :
      TorrentRemovalMode

module _ {H D : Type 0} (w : World H D) where
  -- `validateAddPaths`: the path with the user's folder, or the failure.
  unfoldable pub validate_add_paths : Text → Option Text → Result ⊎ Text
  validate_add_paths save_path torrent_path =
      if elim torrent_path [ none ↦ false | some path ↦ not (w.is_regular_file path) ]
      then inl (failure (msg "Torrent file does not exist or is not a regular file") invalid_input)
      else if is_empty save_path
      then inl (failure (msg "Download path cannot be empty") invalid_input)
      else let resolved = w.expand_user_path save_path in
        if is_empty resolved
        then inl (failure (msg "Download path cannot be resolved") invalid_input)
        else if not (w.make_directory resolved)
        then inl (failure (msg "Download path cannot be created or accessed: " ++ resolved) storage)
        else inr resolved

-- `++torrentCollectionRevision`
abbrev pub bump : ℕ → ℕ
bump r = (r + 1) % 2 ^ 64

module _ {H D : Type 0} ⦃k : Eq H⦄ where
  -- What both ways of adding do with the handle.
  unfoldable pub enter : D → H → Option Text → Text → Registry H D → Registry H D
  enter handle hash path name s = record s {
    torrents = emplace hash handle s.torrents;
    torrent_file_paths = elim path [
      | none ↦ s.torrent_file_paths
      | some p ↦ emplace hash p s.torrent_file_paths
    ];
    torrent_display_names =
        if is_empty name
        then s.torrent_display_names
        else emplace hash name s.torrent_display_names;
    torrent_collection_revision =
        if is_some (lookup hash s.torrents)
        then s.torrent_collection_revision
        else bump s.torrent_collection_revision;
  }

  -- The removal from the three maps.
  unfoldable pub forget : H → Registry H D → Registry H D
  forget hash s = record {
    torrents = remove hash s.torrents;
    torrent_file_paths = remove hash s.torrent_file_paths;
    torrent_display_names = remove hash s.torrent_display_names;
    torrent_collection_revision =
        if is_some (lookup hash s.torrents)
        then bump s.torrent_collection_revision
        else s.torrent_collection_revision;
    cache_stale = true;
  }

deletes_source : TorrentRemovalMode → Bool
deletes_source delete_source_torrent = true
deletes_source delete_data_and_source_torrent = true
deletes_source _ = false

module _ {H D : Type 0} ⦃k : Eq H⦄ ⦃i : InfoHash H⦄ (w : World H D) where
  -- The session's answer; the torrent stays entered also where its name cannot be had.
  unfoldable pub after_session :
      Text ⊎ (D × H) → Option Text → Text → Registry H D → Result × Registry H D
  unfolding enter
  after_session (inl what) path name s = (failure what internal, s)
  after_session (inr (handle, hash)) path name s = elim (w.status_error handle) [
    | none ↦ (ok, record (enter handle hash path name s) { cache_stale = true })
    | some what ↦ (failure what internal, enter handle hash path name s)
  ]

  -- Behind the reading of the file or of the link.
  unfoldable pub add_known : Metadata H → Option Text → Registry H D → Result × Registry H D
  unfolding after_session
  add_known meta path s =
      if (i.has_v1 meta.info_hashes || i.has_v2 meta.info_hashes)
        && is_some (lookup meta.info_hashes s.torrents)
      then (failure (msg "Torrent is already added") duplicate, s)
      else after_session (w.add_torrent meta.info_hashes) path meta.name s

  unfoldable pub add_torrent : Text → Text → Registry H D → Result × Registry H D
  unfolding add_known validate_add_paths
  add_torrent torrent_path save_path s = elim (validate_add_paths w save_path (some torrent_path)) [
    | inl refused ↦ (refused, s)
    | inr resolved ↦ elim (w.torrent_info torrent_path) [
      | inl what ↦ (failure what internal, s)
      | inr meta ↦ add_known meta (some torrent_path) s
    ]
  ]

  unfoldable pub add_magnet_torrent : Text → Text → Registry H D → Result × Registry H D
  unfolding add_known validate_add_paths
  add_magnet_torrent magnet_uri save_path s = elim (validate_add_paths w save_path none) [
    | inl refused ↦ (refused, s)
    | inr resolved ↦
        if not (starts_with (codes "magnet:?") magnet_uri)
        then (failure (msg "Invalid magnet URI") invalid_input, s)
        else elim (w.parse_magnet_uri magnet_uri) [
          | inl what ↦ (failure what internal, s)
          | inr meta ↦
              if not (i.has_v1 meta.info_hashes) && not (i.has_v2 meta.info_hashes)
              then (
                failure (msg "Magnet URI does not contain a supported info hash") invalid_input,
                s,
              )
              else add_known meta none s
        ]
  ]

  -- The error of the removal of the .torrent file, if the mode asks for it and there is a path.
  pub source_removal_error : H → TorrentRemovalMode → Registry H D → Text
  unfolding deletes_source
  source_removal_error hash mode s =
      let path = get_or_else [] (lookup hash s.torrent_file_paths) in
      if deletes_source mode && not (is_empty path) then w.remove_file path else []

  unfoldable pub remove_torrent : H → TorrentRemovalMode → Registry H D → Result × Registry H D
  unfolding forget source_removal_error
  remove_torrent hash mode s = elim (lookup hash s.torrents) [
    | none ↦ (failure (msg "Torrent not found") not_found, s)
    | some handle ↦
        if not (w.is_valid handle)
        then (failure (msg "Torrent handle is invalid") internal, s)
        else let error = source_removal_error hash mode s in
          (
            if is_empty error then ok else failure (msg "Torrent removed, but " ++ error) partial,
            forget hash s,
          )
  ]
