-- ===== src/TorrentList/Availability.antt =====
-- Commands by identifier in src/presentation/TorrentListPresenter.cpp: `availabilityForId`,
-- `executeCommand`, `removeTorrent`; with src/presentation/TorrentAvailability.cpp.
use hypertube.Common.{
  ℕ, Bool, not, ◌||◌, List, ◌==◌, text_eq, Option, none, some, Text, codes, msg, if◌then◌else◌,
  is_empty, is_some, find, Result, ResultCode, failure, not_found, invalid_input,
}
use hypertube.Identity.{InfoHash, is_valid}
use hypertube.TorrentList.{TorrentList, hash_for_id}

pub data TorrentAvailability : Type 0 where
  loading_status available metadata_pending removed invalid_id error : TorrentAvailability

pub record TorrentAvailabilityInfo : Type 0 where
  pub state : TorrentAvailability
  pub details : Text

unfoldable pub availability_message : TorrentAvailability → Text → Text
availability_message loading_status details = msg "Loading torrent status..."
availability_message available details = codes ""
availability_message metadata_pending details = msg "Waiting for torrent metadata..."
availability_message removed details = msg "The selected torrent was removed."
availability_message invalid_id details = msg "Internal torrent identifier error."
availability_message error details =
    if is_empty details then msg "Torrent operation failed." else details

unfoldable pub availability_code : TorrentAvailability → ResultCode
availability_code removed = not_found
availability_code _ = invalid_input

unfoldable pub availability_failure : TorrentAvailabilityInfo → Result
unfolding availability_message availability_code
availability_failure info =
    failure (availability_message info.state info.details) (availability_code info.state)

-- What `findRowById` answers: whether the row has an error, and the label of its state.
pub record RowState : Type 0 where
  pub has_error : Bool
  pub state_label : Text

abbrev info_of : TorrentAvailability → Text → TorrentAvailabilityInfo
info_of state details = record { state = state; details = details }

row_availability : RowState → TorrentAvailabilityInfo
unfolding find
row_availability row =
    if row.has_error
    then info_of error row.state_label
    else if is_some (find (codes "metadata") row.state_label)
        || is_some (find (codes "Metadata") row.state_label)
    then info_of metadata_pending (codes "")
    else if row.state_label == codes "Loading"
    then info_of loading_status (codes "")
    else info_of available (codes "")

unfoldable pub availability_for_id :
    {H : Type 0} → Text → Option H → Option RowState → TorrentAvailabilityInfo
unfolding is_valid row_availability
availability_for_id candidate hash row =
    if not (is_valid candidate)
    then info_of invalid_id (codes "")
    else if not (is_some hash)
    then info_of removed (codes "")
    else elim row [ none ↦ info_of loading_status (codes "") | some r ↦ row_availability r ]

module _ {H D S : Type 0} ⦃i : InfoHash H⦄ (valid_handle : D → Bool)
    (action : H → S → Result × S) where
  -- `executeCommand` and `removeTorrent`, by what they do with the hash.
  unfoldable pub act_on_id :
      Text → ℕ → List (H × D) → Option RowState → TorrentList H → S → Result × S
  unfolding availability_for_id availability_failure hash_for_id
  act_on_id candidate revision torrents row list s =
      elim (hash_for_id valid_handle candidate revision torrents list) [
        | none ↦ (availability_failure (availability_for_id {H = H} candidate none row), s)
        | some hash ↦ action hash s
      ]
