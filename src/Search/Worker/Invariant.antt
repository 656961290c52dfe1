-- ===== src/Search/Worker/Invariant.antt =====
-- One search at a time, and every completion is that of the latest request.
use hypertube.Common.{
  ℕ, ◌+◌, ◌%◌, ◌^◌, ◌≡◌, refl, Bool, true, false, List, [], ◌∷◌, arith, Result, Text,
}
use hypertube.Search.Types.{SearchQuery, SearchResponse}
use hypertube.Search.Worker.{
  Phase, waiting, taken, performing, performed, published, stopped, is_open, Engine, initial,
  start_search, open_search, queue_search, try_start_search, enter_call, end_search_torrents,
  note_call, clear_search_history, look_to_cancel, store_cancel, take_completed_search,
  request_shutdown, cancel_for_shutdown, request_stop, worker_at, worker_step, Event, start,
  queue_started, begin_call, entered_call, end_call, noted_call, clear_history, cancel,
  cancel_stored, take_completed, shut_down, cancel_all, stop_thread, thread, engine_step,
  engine_run,
}

abbrev pub count : Bool → ℕ
count true = 1
count false = 0

-- The thread has a task in hand.
abbrev pub in_hand : Phase → ℕ
in_hand waiting = 0
in_hand (taken task) = 1
in_hand (performing task) = 1
in_hand (performed done) = 1
in_hand published = 1
in_hand stopped = 0

-- The identifier of the task in hand is the last that was issued.
abbrev pub IsLatest : ℕ → Phase → Type 0
IsLatest next waiting = Unit
IsLatest next (taken task) = (task.request_id + 1) % 2 ^ 64 ≡ next
IsLatest next (performing task) = (task.request_id + 1) % 2 ^ 64 ≡ next
IsLatest next (performed done) = (done.request_id + 1) % 2 ^ 64 ≡ next
IsLatest next published = Unit
IsLatest next stopped = Unit

pub record Inv (s : Engine) : Type 0 where
  -- A pending task, a task in hand, a synchronous call and a start that holds the lock exclude one
  -- another, and `searching` tells whether there is one of them.
  pub one :
      count s.has_work + in_hand s.phase + count s.in_call + count (is_open s.opening)
      ≡ count s.searching
  pub pending : s.has_work ≡ true → (s.pending_task.request_id + 1) % 2 ^ 64 ≡ s.next_request_id
  pub latest : IsLatest s.next_request_id s.phase

idle-IsLatest : (n : ℕ) (p : Phase) → in_hand p ≡ 0 → IsLatest n p
idle-IsLatest n waiting h = tt
idle-IsLatest n (taken task) h = absurd (omega arith)
idle-IsLatest n (performing task) h = absurd (omega arith)
idle-IsLatest n (performed done) h = absurd (omega arith)
idle-IsLatest n published h = absurd (omega arith)
idle-IsLatest n stopped h = tt

pub start-Inv : (q : SearchQuery) (s : Engine) → Inv s → Inv (start_search q s).1
unfolding start_search
start-Inv q s v = ground (arith, idle-IsLatest ((s.next_request_id + 1) % 2 ^ 64) s.phase)

-- The two parts of a start, of either kind.
opening-Inv : (q : SearchQuery) (s : Engine) → Inv s → Inv (open_search q s).1
unfolding open_search
opening-Inv q s v = ground (arith, idle-IsLatest s.next_request_id s.phase)

queued-Inv : (s : Engine) → Inv s → Inv (queue_search s)
unfolding queue_search
queued-Inv s v = ground (arith, idle-IsLatest ((s.next_request_id + 1) % 2 ^ 64) s.phase)

call-Inv : (s : Engine) → Inv s → Inv (try_start_search s).1
unfolding try_start_search
call-Inv s v = ground (arith, idle-IsLatest s.next_request_id s.phase)

entered-Inv : (s : Engine) → Inv s → Inv (enter_call s)
unfolding enter_call
entered-Inv s v = ground arith

end-Inv : (q : Text) (r : Result) (s : Engine) → Inv s → Inv (end_search_torrents q r s)
unfolding end_search_torrents
end-Inv q r s v = ground arith

-- The thread's step, where its place is known.
abbrev At : Phase → Engine → Type 0
At p s =
    (count s.has_work + in_hand p + count s.in_call + count (is_open s.opening) ≡ count s.searching)
    × (s.has_work ≡ true → (s.pending_task.request_id + 1) % 2 ^ 64 ≡ s.next_request_id)
    × IsLatest s.next_request_id p

worker-Inv :
    (p : Phase) (a : Result × SearchResponse) (s : Engine)
    → s.phase ≡ p
    → At p s
    → Inv (worker_at p a s)
unfolding worker_at
worker-Inv waiting a s e v = ground arith
worker-Inv (taken task) a s e v = ground arith
worker-Inv (performing task) a s e v = ground arith
worker-Inv (performed done) a s e v = ground arith
worker-Inv published a s e v = ground arith
worker-Inv stopped a s e v = ground arith

pub engine_step-Inv : (s : Engine) (e : Event) → Inv s → Inv (engine_step s e)
unfolding engine_step note_call clear_search_history look_to_cancel store_cancel
    take_completed_search request_shutdown cancel_for_shutdown request_stop worker_step
engine_step-Inv s (start q) v = opening-Inv q s v
engine_step-Inv s queue_started v = queued-Inv s v
engine_step-Inv s begin_call v = call-Inv s v
engine_step-Inv s entered_call v = entered-Inv s v
engine_step-Inv s (end_call q r) v = end-Inv q r s v
engine_step-Inv s (noted_call q) v = ground arith
engine_step-Inv s clear_history v = record { one = v.one; pending = v.pending; latest = v.latest }
engine_step-Inv s cancel v = ground arith
engine_step-Inv s cancel_stored v = ground arith
engine_step-Inv s take_completed v = record { one = v.one; pending = v.pending; latest = v.latest }
engine_step-Inv s shut_down v = record { one = v.one; pending = v.pending; latest = v.latest }
engine_step-Inv s cancel_all v = ground arith
engine_step-Inv s stop_thread v = ground arith
engine_step-Inv s (thread a) v = worker-Inv s.phase a s refl (v.one, v.pending, v.latest)

-- The invariant holds after any calls and steps of the thread, in whatever order: at most one search
-- is under way, `searching` tells whether one is, and the task that is pending or in hand is that of
-- the latest request.
pub engine_run-Inv : (s : Engine) (es : List Event) → Inv s → Inv (engine_run s es)
unfolding engine_run
engine_run-Inv s [] v = v
engine_run-Inv s (e ∷ es) v = engine_run-Inv (engine_step s e) es (engine_step-Inv s e v)

pub initial-Inv : Inv initial
initial-Inv = record { one = refl; pending = λ h. cc; latest = tt }
