-- ===== src/Search/Worker.antt =====
-- The search thread of src/app/SearchEngine.cpp and the calls that drive it: `startSearch`,
-- `tryStartSearch`, `finishSearch`, `cancelCurrentSearch`, `takeCompletedSearch`, `shutdown` and
-- `workerLoop`, with `clearSearchHistory`. The calls are cut at each store to an atomic flag and at each
-- lock, and `cancelCurrentSearch` also behind its look. The looks of a start at the flags and its first
-- store are one step; so are a look of the thread at the cancellation and what follows from it.
-- `startSearch` and `tryStartSearch` hold a lock that `cancelCurrentSearch` does not take.
pub mod Invariant
pub mod Cancel
pub mod Progress
use hypertube.Common.{
  ℕ, zero, suc, ◌+◌, ◌%◌, ◌^◌, ◌≡◌, Bool, true, false, not, ◌&&◌, ◌||◌, List, [], ◌∷◌, Option, none,
  some, Text, msg, if◌then◌else◌, is_empty, arith, Result, ok, failure, failure_retry,
  invalid_input, unavailable, busy, cancelled, elem, erase_first, text_eq,
}
use hypertube.Search.Types.{SearchQuery, SearchResponse, no_response}
use hypertube.Search.History.{add_to_search_history}

pub record SearchTask : Type 0 where
  pub query : SearchQuery
  pub request_id : ℕ

pub record CompletedSearch : Type 0 where
  pub request_id : ℕ
  pub result : Result
  pub response : SearchResponse

-- Where `workerLoop` stands: before the wait, behind the look at the queue, in `performSearch`,
-- before the completion is published, before `finishSearch`, and behind the loop.
pub data Phase : Type 0 where
  waiting : Phase
  taken : SearchTask → Phase
  performing : SearchTask → Phase
  performed : CompletedSearch → Phase
  published : Phase
  stopped : Phase

-- A start that has set `searching` and not yet cleared `cancelRequested`: it holds the lock of the
-- queue.
pub data Opening : Type 0 where
  closed : Opening
  for_search : SearchQuery → Opening
  for_call : Opening

abbrev pub is_open : Opening → Bool
is_open closed = false
is_open (for_search q) = true
is_open for_call = true

-- `in_call` tells that a thread is inside the synchronous `searchTorrents`, `cancelling` counts the
-- calls of `cancelCurrentSearch` that have seen a search and not yet stored, and `unnoted` are the
-- queries of synchronous calls that have finished with a success and are not in the history yet.
pub record Engine : Type 0 where
  pub searching : Bool
  pub cancel_requested : Bool
  pub shutting_down : Bool
  pub stop_worker : Bool
  pub has_work : Bool
  pub pending_task : SearchTask
  pub next_request_id : ℕ
  pub completed_search : Option CompletedSearch
  pub search_history : List Text
  pub phase : Phase
  pub in_call : Bool
  pub opening : Opening
  pub cancelling : ℕ
  pub unnoted : List Text

-- The constructor; the members that it leaves alone are empty.
abbrev pub initial : Engine
initial = record {
  searching = false;
  cancel_requested = false;
  shutting_down = false;
  stop_worker = false;
  has_work = false;
  pending_task = record {
    query = record { query = []; max_results = 0; next_token = [] };
    request_id = 0;
  };
  next_request_id = 1;
  completed_search = none;
  search_history = [];
  phase = waiting;
  in_call = false;
  opening = closed;
  cancelling = 0;
  unnoted = [];
}

abbrev queued : SearchQuery → Engine → Engine
queued q s = record s {
  cancel_requested = false;
  pending_task = record { query = q; request_id = s.next_request_id };
  next_request_id = (s.next_request_id + 1) % 2 ^ 64;
  has_work = true;
  opening = closed;
}

-- `startSearch` up to where it sets `searching`, and the rest of it.
unfoldable pub open_search : SearchQuery → Engine → Result × Engine
open_search q s =
    if is_empty q.query
    then (failure (msg "Search query cannot be empty") invalid_input, s)
    else if s.shutting_down || s.stop_worker
    then (failure (msg "Search service is shutting down") unavailable, s)
    else if s.searching
    then (failure (msg "Search already in progress") busy, s)
    else (ok, record s { searching = true; opening = for_search q })

unfoldable pub queue_search : Engine → Engine
queue_search s = elim s.opening [ closed ↦ s | for_search q ↦ queued q s | for_call ↦ s ]

-- The whole of `startSearch`, where nothing comes between; the request's identifier is that of the
-- pending task.
unfoldable pub start_search : SearchQuery → Engine → Result × Engine
start_search q s =
    if is_empty q.query
    then (failure (msg "Search query cannot be empty") invalid_input, s)
    else if s.shutting_down || s.stop_worker
    then (failure (msg "Search service is shutting down") unavailable, s)
    else if s.searching
    then (failure (msg "Search already in progress") busy, s)
    else (ok, queued q (record s { searching = true }))

-- The two parts are the whole.
start_search-queue_search :
    (q : SearchQuery) (s : Engine)
    → (start_search q s).0.success ≡ true
    → (start_search q s).1 ≡ queue_search (open_search q s).1
unfolding start_search open_search queue_search
start_search-queue_search q s h = ground arith

-- The begin of `searchTorrents` is `tryStartSearch`, in two parts; its end is `finishSearch`, and
-- behind it the history.
unfoldable pub try_start_search : Engine → Bool × Engine
try_start_search s =
    if s.searching then (false, s) else (true, record s { searching = true; opening = for_call })

unfoldable pub enter_call : Engine → Engine
enter_call s = elim s.opening [
  | closed ↦ s
  | for_search q ↦ s
  | for_call ↦ record s { cancel_requested = false; in_call = true; opening = closed }
]

unfoldable pub end_search_torrents : Text → Result → Engine → Engine
end_search_torrents query result s =
    if s.in_call
    then record s {
      searching = false;
      in_call = false;
      unnoted = if result.success then query ∷ s.unnoted else s.unnoted;
    }
    else s

unfoldable pub note_call : Text → Engine → Engine
note_call query s =
    if elem query s.unnoted
    then record s {
      search_history = add_to_search_history query s.search_history;
      unnoted = erase_first query s.unnoted;
    }
    else s

unfoldable pub clear_search_history : Engine → Engine
clear_search_history s = record s { search_history = [] }

-- `cancelCurrentSearch`: the look at `searching`, and the store behind it.
unfoldable pub look_to_cancel : Engine → Engine
look_to_cancel s = if s.searching then record s { cancelling = suc s.cancelling } else s

unfoldable pub store_cancel : Engine → Engine
store_cancel s = elim s.cancelling [
  | zero ↦ s
  | suc n ↦ record s { cancel_requested = true; cancelling = n }
]

-- The whole of it, where nothing comes between.
unfoldable pub cancel_current_search : Engine → Engine
cancel_current_search s = if s.searching then record s { cancel_requested = true } else s

cancel_current_search-store :
    (s : Engine) → s.cancelling ≡ 0 → cancel_current_search s ≡ store_cancel (look_to_cancel s)
unfolding cancel_current_search store_cancel look_to_cancel
cancel_current_search-store s h = ground arith

unfoldable pub take_completed_search : Engine → Option CompletedSearch × Engine
take_completed_search s = (s.completed_search, record s { completed_search = none })

-- The three parts of `shutdown` before it waits for the thread; the last takes the lock.
unfoldable pub request_shutdown : Engine → Engine
request_shutdown s = record s { shutting_down = true }

unfoldable pub cancel_for_shutdown : Engine → Engine
cancel_for_shutdown s = if s.shutting_down then record s { cancel_requested = true } else s

unfoldable pub request_stop : Engine → Engine
request_stop s = if is_open s.opening then s else record s { stop_worker = true }

abbrev pub cancelled_result : Result
cancelled_result = failure (msg "Search cancelled") cancelled

abbrev pub completion : SearchTask → Result → SearchResponse → CompletedSearch
completion task result response = record {
  request_id = task.request_id;
  result = result;
  response = response;
}

-- One step of `workerLoop`, by where it stands; `answer` is what `performSearch` returns, and is
-- read in that step only.
unfoldable pub worker_at : Phase → Result × SearchResponse → Engine → Engine
worker_at waiting answer s =
    if s.has_work
    then record s { phase = taken s.pending_task; has_work = false }
    else if s.stop_worker && not (is_open s.opening)
    then record s { phase = stopped }
    else s
worker_at (taken task) answer s =
    if s.cancel_requested
    then record s { phase = performed (completion task cancelled_result no_response) }
    else record s { phase = performing task }
worker_at (performing task) answer s =
    if s.cancel_requested
    then record s { phase = performed (completion task cancelled_result answer.1) }
    else record s {
      phase = performed (completion task answer.0 answer.1);
      search_history =
          if answer.0.success
          then add_to_search_history task.query.query s.search_history
          else s.search_history;
    }
worker_at (performed done) answer s = record s { phase = published; completed_search = some done }
worker_at published answer s = record s { phase = waiting; searching = false }
worker_at stopped answer s = s

unfoldable pub worker_step : Result × SearchResponse → Engine → Engine
unfolding worker_at
worker_step answer s = worker_at s.phase answer s

-- What can happen next: a call from outside, or a step of the thread.
pub data Event : Type 0 where
  start : SearchQuery → Event
  queue_started : Event
  begin_call : Event
  entered_call : Event
  end_call : Text → Result → Event
  noted_call : Text → Event
  clear_history : Event
  cancel : Event
  cancel_stored : Event
  take_completed : Event
  shut_down : Event
  cancel_all : Event
  stop_thread : Event
  thread : Result × SearchResponse → Event

unfoldable pub engine_step : Engine → Event → Engine
engine_step s (start q) = (open_search q s).1
engine_step s queue_started = queue_search s
engine_step s begin_call = (try_start_search s).1
engine_step s entered_call = enter_call s
engine_step s (end_call query result) = end_search_torrents query result s
engine_step s (noted_call query) = note_call query s
engine_step s clear_history = clear_search_history s
engine_step s cancel = look_to_cancel s
engine_step s cancel_stored = store_cancel s
engine_step s take_completed = (take_completed_search s).1
engine_step s shut_down = request_shutdown s
engine_step s cancel_all = cancel_for_shutdown s
engine_step s stop_thread = request_stop s
engine_step s (thread answer) = worker_step answer s

-- Any interleaving is a list of events.
unfoldable pub engine_run : Engine → List Event → Engine
engine_run s [] = s
engine_run s (e ∷ es) = engine_run (engine_step s e) es
