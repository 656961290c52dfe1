-- ===== src/Search/Types.antt =====
-- The data that searches exchange (include/app/SearchEngine.hpp).
use hypertube.Common.{ℕ, Bool, false, List, [], Text}

-- `TorrentSearchResult`; its counts and sizes are never negative, since every producer clamps them.
pub record TorrentSearchResult : Type 0 where
  pub name : Text
  pub magnet_uri : Text
  pub info_hash : Text
  pub size_bytes : ℕ
  pub seeders : ℕ
  pub leechers : ℕ
  pub date_uploaded : Text
  pub category : Text
  pub created_unix : ℕ
  pub scraped_date : ℕ
  pub completed : ℕ

-- `SearchQuery`; `max_results` is 0 for the default of the service.
pub record SearchQuery : Type 0 where
  pub query : Text
  pub max_results : ℕ
  pub next_token : Text

pub record SearchResponse : Type 0 where
  pub torrents : List TorrentSearchResult
  pub next_token : Text
  pub has_more : Bool

abbrev pub no_response : SearchResponse
no_response = record { torrents = []; next_token = []; has_more = false }
