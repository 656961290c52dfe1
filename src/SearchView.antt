-- ===== src/SearchView.antt =====
-- src/presentation/SearchPresenter.cpp: what the search page shows, over the search engine.
pub mod State
pub mod Unique
pub mod Awaited
use hypertube.Common.{
  ℕ, suc, ◌+◌, ◌%◌, ◌^◌, ◌≡◌, Bool, true, false, not, ◌&&◌, ◌||◌, List, [], ◌∷◌, ◌++◌, Option, none,
  some, Text, msg, nat_beq, ◌==◌, text_eq, if◌then◌else◌, is_empty, Result, ResultCode, ok, failure,
  failure_retry, invalid_input, unavailable, busy,
}
use State.{SearchState}
use hypertube.Search.Types.{TorrentSearchResult, SearchQuery, SearchResponse}
use hypertube.Search.Favorites.{Favorites, add_to_favorites, remove_from_favorites}
use hypertube.Search.Worker.{
  Engine, CompletedSearch, start_search, take_completed_search, cancel_current_search,
}

pub record SearchPresenter : Type 0 where
  pub results_ : List TorrentSearchResult
  pub favorites_ : List TorrentSearchResult
  pub current_query : Text
  pub next_token : Text
  pub state_message : Text
  pub active_request_id : ℕ
  pub favorites_revision : ℕ
  pub revision : ℕ
  pub has_more : Bool
  pub loading_more : Bool
  pub state : SearchState

abbrev pub initial : SearchPresenter
initial = record {
  results_ = [];
  favorites_ = [];
  current_query = [];
  next_token = [];
  state_message = [];
  active_request_id = 0;
  favorites_revision = 0;
  revision = 0;
  has_more = true;
  loading_more = false;
  state = SearchState.idle;
}

abbrev pub is_searching : SearchState → Bool
is_searching SearchState.loading = true
is_searching _ = false

-- `++revision_` on a `uint64_t`
abbrev pub next : ℕ → ℕ
next r = (r + 1) % 2 ^ 64

abbrev pub first_page : Text → SearchQuery
first_page query = record { query = query; max_results = 0; next_token = [] }

abbrev pub next_page : SearchPresenter → SearchQuery
next_page p = record { query = p.current_query; max_results = 0; next_token = p.next_token }

-- `startSearch`
unfoldable pub start : Text → SearchPresenter → Engine → Result × SearchPresenter × Engine
start query p e =
    if is_empty query
    then (failure (msg "Search query cannot be empty") invalid_input, p, e)
    else if is_searching p.state
    then (failure_retry (msg "A search is already in progress") busy, p, e)
    else let started = start_search (first_page query) e in
      if not started.0.success then (started.0, p, started.1) else (
        ok,
        record p {
          current_query = query;
          next_token = [];
          results_ = [];
          has_more = true;
          loading_more = false;
          active_request_id = e.next_request_id;
          state_message = [];
          state = SearchState.loading;
          revision = next p.revision;
        },
        started.1,
      )

-- `loadMore`
unfoldable pub load_more : SearchPresenter → Engine → Result × SearchPresenter × Engine
load_more p e =
    if is_searching p.state || is_empty p.current_query || is_empty p.next_token || not p.has_more
    then (failure (msg "There are no more search results to load") unavailable, p, e)
    else let started = start_search (next_page p) e in
      if not started.0.success then (started.0, p, started.1) else (
        ok,
        record p {
          active_request_id = e.next_request_id;
          loading_more = true;
          state = SearchState.loading;
          state_message = [];
          revision = next p.revision;
        },
        started.1,
      )

unfoldable pub cancel_search : SearchPresenter → Engine → Engine
cancel_search p e = if is_searching p.state then cancel_current_search e else e

-- The result is there already: it has a hash, and one of the list has the same.
unfoldable pub duplicate : TorrentSearchResult → List TorrentSearchResult → Bool
duplicate r [] = false
duplicate r (existing ∷ rest) =
    (not (is_empty r.info_hash) && (r.info_hash == existing.info_hash)) || duplicate r rest

-- `mergeUnique`
unfoldable pub merge_unique :
    List TorrentSearchResult → List TorrentSearchResult → List TorrentSearchResult
unfolding duplicate
merge_unique [] results = results
merge_unique (r ∷ incoming) results =
    merge_unique incoming (if duplicate r results then results else results ++ r ∷ [])

pub is_cancelled : ResultCode → Bool
is_cancelled ResultCode.cancelled = true
is_cancelled _ = false

-- The part of `update` that handles the completion of the active request.
pub complete : CompletedSearch → SearchPresenter → SearchPresenter
unfolding merge_unique is_cancelled
complete c p =
    if not c.result.success
    then record p {
      loading_more = false;
      state = if is_cancelled c.result.code then SearchState.cancelled else SearchState.failed;
      state_message =
          if is_cancelled c.result.code then msg "Search cancelled." else c.result.message;
      revision = next p.revision;
    }
    else let merged = merge_unique c.response.torrents p.results_ in
      record p {
        loading_more = false;
        next_token = c.response.next_token;
        has_more = c.response.has_more && not (is_empty c.response.next_token);
        results_ = merged;
        state = if is_empty merged then SearchState.empty else SearchState.results;
        state_message = if is_empty merged then msg "No torrents found." else [];
        revision = next p.revision;
      }

-- The favorites are copied again if their revision is another.
pub refresh_favorites : Favorites → SearchPresenter → SearchPresenter
refresh_favorites f p = if nat_beq p.favorites_revision f.favorites_revision then p else record p {
  favorites_ = f.favorites;
  favorites_revision = f.favorites_revision;
  revision = next p.revision;
}

-- A completion of another request is dropped.
pub after_take : Option CompletedSearch → SearchPresenter → SearchPresenter
unfolding complete
after_take none p = p
after_take (some c) p = if nat_beq c.request_id p.active_request_id then complete c p else p

unfoldable pub update : Favorites → SearchPresenter → Engine → SearchPresenter × Engine
unfolding refresh_favorites after_take
update f p e =
    (after_take (take_completed_search e).0 (refresh_favorites f p), (take_completed_search e).1)

-- `addFavorite` and `removeFavorite`
unfoldable pub add_favorite :
    TorrentSearchResult → SearchPresenter → Favorites → SearchPresenter × Favorites
add_favorite r p f =
    (record p { favorites_revision = 0; revision = next p.revision }, add_to_favorites r f)

unfoldable pub remove_favorite : Text → SearchPresenter → Favorites → SearchPresenter × Favorites
remove_favorite info_hash p f = (
  record p { favorites_revision = 0; revision = next p.revision },
  remove_from_favorites info_hash f,
)
