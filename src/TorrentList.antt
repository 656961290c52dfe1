-- ===== src/TorrentList.antt =====
-- src/presentation/TorrentListPresenter.cpp: which torrent an identifier of the list stands for, the
-- filters, and the categories with their counts.
pub mod Availability
pub mod Resolve
pub mod Categories
use hypertube.Common.{
  ℕ, ◌+◌, ◌≡◌, Bool, true, false, not, ◌&&◌, ◌||◌, List, [], ◌∷◌, map, Option, none, some, Text,
  nat_beq, if◌then◌else◌, is_empty, is_some, Assoc, lookup, emplace, find, text_eq, ◌==◌,
}
use hypertube.Identity.{InfoHash, id, matches}
use hypertube.Identity.Normalize.{to_lower}

-- `TorrentUiState`
pub data TorrentUiState : Type 0 where
  downloading seeding completed paused other : TorrentUiState

-- What filters read of `TorrentRowDto`.
pub record TorrentRow : Type 0 where
  pub name : Text
  pub state_label : Text
  pub state : TorrentUiState
  pub active : Bool

-- The identifiers of the torrents as they were at a revision of the collection.
pub record TorrentList (H : Type 0) : Type 0 where
  pub hashes_by_id : Assoc Text H
  pub registry_revision : ℕ

module _ {H D : Type 0} ⦃i : InfoHash H⦄ (is_valid : D → Bool) where
  pub collect_ids : List (H × D) → Assoc Text H → Assoc Text H
  collect_ids [] by_id = by_id
  collect_ids ((hash, handle) ∷ rest) by_id =
      collect_ids rest (
        if not (is_valid handle) || is_empty (id hash) then by_id else emplace (id hash) hash by_id)

  -- `ensureRegistryCurrent`, with the revision and the snapshot that the manager gives.
  unfoldable pub ensure_registry_current : ℕ → List (H × D) → TorrentList H → TorrentList H
  unfolding collect_ids
  ensure_registry_current revision torrents s =
      if nat_beq revision s.registry_revision
      then s
      else record { hashes_by_id = collect_ids torrents []; registry_revision = revision }

  -- The first torrent of the snapshot with the identifier.
  pub find_match : Text → List (H × D) → Option H
  find_match candidate [] = none
  find_match candidate ((hash, handle) ∷ rest) =
      let behind = find_match candidate rest in
      if is_valid handle && matches hash candidate then some hash else behind

  -- `hashForId`
  unfoldable pub hash_for_id : Text → ℕ → List (H × D) → TorrentList H → Option H
  unfolding ensure_registry_current find_match
  hash_for_id candidate revision torrents s =
      elim (lookup candidate (ensure_registry_current revision torrents s).hashes_by_id) [
        | some hash ↦ some hash
        | none ↦ find_match candidate torrents
      ]

abbrev pub is_downloading : TorrentUiState → Bool
is_downloading downloading = true
is_downloading _ = false

abbrev pub is_seeding : TorrentUiState → Bool
is_seeding seeding = true
is_seeding _ = false

abbrev pub is_completed : TorrentUiState → Bool
is_completed completed = true
is_completed _ = false

abbrev pub is_paused : TorrentUiState → Bool
is_paused paused = true
is_paused _ = false

-- `matchesCategory` with the filter from 0 to 6
unfoldable pub matches_category : ℕ → TorrentRow → Bool
matches_category filter row =
    if nat_beq filter 1
    then is_downloading row.state
    else if nat_beq filter 2
    then is_seeding row.state
    else if nat_beq filter 3
    then is_completed row.state
    else if nat_beq filter 4
    then is_paused row.state
    else if nat_beq filter 5
    then row.active
    else if nat_beq filter 6
    then not row.active
    else true

-- `matchesTextFilter`: the letters A to Z count as small ones.
unfoldable pub matches_text_filter : Text → TorrentRow → Bool
unfolding find
matches_text_filter filter row =
    is_empty filter
    || is_some (find (map to_lower filter) (map to_lower row.name))
    || is_some (find (map to_lower filter) (map to_lower row.state_label))

-- The rows that `buildRows` keeps.
unfoldable pub visible_rows : ℕ → Text → List TorrentRow → List TorrentRow
unfolding matches_category matches_text_filter
visible_rows category filter [] = []
visible_rows category filter (row ∷ rows) =
    let rest = visible_rows category filter rows in
    if not (matches_category category row) || not (matches_text_filter filter row)
    then rest
    else row ∷ rest

-- The count of a category in `buildCategories`.
unfoldable pub category_count : ℕ → List TorrentRow → ℕ
unfolding matches_category
category_count category [] = 0
category_count category (row ∷ rows) =
    let rest = category_count category rows in
    if matches_category category row then rest + 1 else rest
