-- ===== src/Search/Worker/Cancel.antt =====
-- A search that is cancelled before its result is there is published as cancelled, whatever else
-- happens.
use hypertube.Common.{
  ℕ, suc, ◌≡◌, refl, sym, subst, ◌⊎◌, inl, inr, true, List, [], ◌∷◌, some, arith, Result, Text,
}
use hypertube.Search.Types.{SearchQuery, SearchResponse}
use hypertube.Search.Worker.{
  SearchTask, CompletedSearch, Phase, waiting, taken, performing, performed, published, stopped,
  closed, Engine, cancelled_result, open_search, queue_search, try_start_search, enter_call,
  end_search_torrents, note_call, clear_search_history, look_to_cancel, store_cancel,
  take_completed_search, request_shutdown, cancel_for_shutdown, request_stop, worker_at,
  worker_step, Event, start, queue_started, begin_call, entered_call, end_call, noted_call,
  clear_history, cancel, cancel_stored, take_completed, shut_down, cancel_all, stop_thread, thread,
  engine_step,
}
use hypertube.Search.Worker.Invariant.{Inv, in_hand, engine_step-Inv}

-- The task is in hand, and its result is not there yet.
abbrev pub IsUndecided : SearchTask → Phase → Type 0
IsUndecided task p = (p ≡ taken task) ⊎ (p ≡ performing task)

-- A completion of the request that says that it was cancelled.
abbrev IsCancelledOne : ℕ → CompletedSearch → Type 0
IsCancelledOne id c = (c.request_id ≡ id) × (c.result ≡ cancelled_result)

-- What has become of a cancelled task that is in hand.
abbrev Fate : ℕ → Phase → Engine → Type 0
Fate id waiting s = Unit
Fate id (taken task) s = (task.request_id ≡ id) × (s.cancel_requested ≡ true)
Fate id (performing task) s = (task.request_id ≡ id) × (s.cancel_requested ≡ true)
Fate id (performed done) s = IsCancelledOne id done
Fate id published s = Unit
Fate id stopped s = Unit

-- A step of the thread for the task: the cancelled completion is made, and then published; the
-- history stays as it is.
abbrev Advances : ℕ → Phase → Engine → Engine → Type 0
Advances id waiting s t = Unit
Advances id (taken task) s t =
    ((done : CompletedSearch) × (t.phase ≡ performed done) × IsCancelledOne id done)
    × (t.search_history ≡ s.search_history)
Advances id (performing task) s t =
    ((done : CompletedSearch) × (t.phase ≡ performed done) × IsCancelledOne id done)
    × (t.search_history ≡ s.search_history)
Advances id (performed done) s t =
    ((c : CompletedSearch) × (t.completed_search ≡ some c) × IsCancelledOne id c)
    × ((t.phase ≡ published) × (t.search_history ≡ s.search_history))
Advances id published s t = t.search_history ≡ s.search_history
Advances id stopped s t = Unit

-- A call leaves the task where it is.
abbrev Moves : ℕ → Event → Engine → Engine → Type 0
Moves id (thread a) s t = Advances id s.phase s t
Moves id _ s t = t.phase ≡ s.phase

-- As long as the task is in hand, it is on its way to a cancelled completion, every step of the thread
-- brings it forward, and no call takes it back.
abbrev pub CancelledAlong : ℕ → Engine → List Event → Type 0
CancelledAlong id s [] = Fate id s.phase s
CancelledAlong id s (e ∷ es) =
    Fate id s.phase s
    × (in_hand s.phase ≡ 1
        → (Moves id e s (engine_step s e)) × CancelledAlong id (engine_step s e) es)

-- The thread's step, where its place is known.
worker-Advances :
    (id : ℕ) (p : Phase) (a : Result × SearchResponse) (s : Engine)
    → in_hand p ≡ 1
    → Fate id p s
    → (Advances id p s (worker_at p a s)) × Fate id (worker_at p a s).phase (worker_at p a s)
unfolding worker_at
worker-Advances id waiting a s i f = absurd (omega arith)
worker-Advances id (taken task) a s i f = rw f.1 (((_, refl, (f.0, refl)), refl), (f.0, refl))
worker-Advances id (performing task) a s i f = rw f.1 (((_, refl, (f.0, refl)), refl), (f.0, refl))
worker-Advances id (performed done) a s i f = (((done, refl, f), (refl, refl)), tt)
worker-Advances id published a s i f = (refl, tt)
worker-Advances id stopped a s i f = absurd (omega arith)

-- What a call leaves alone, while the task is in hand.
abbrev Keeps : Engine → Engine → Type 0
Keeps s t = (t.phase ≡ s.phase) × (s.cancel_requested ≡ true → t.cancel_requested ≡ true)

Fate-kept :
    (id : ℕ) (p : Phase) (s t : Engine)
    → (s.cancel_requested ≡ true → t.cancel_requested ≡ true)
    → Fate id p s
    → Fate id p t
Fate-kept id waiting s t h f = tt
Fate-kept id (taken task) s t h f = (f.0, h f.1)
Fate-kept id (performing task) s t h f = (f.0, h f.1)
Fate-kept id (performed done) s t h f = f
Fate-kept id published s t h f = tt
Fate-kept id stopped s t h f = tt

Keeps-Fate : (id : ℕ) (s t : Engine) → Keeps s t → Fate id s.phase s → Fate id t.phase t
Keeps-Fate id s t (p, h) f = subst (λ q. Fate id q t) (sym p) (Fate-kept id s.phase s t h f)

-- While a task is in hand no start of either kind is under way, and none is accepted.
is_busy : (s : Engine) → Inv s → in_hand s.phase ≡ 1 → (s.searching ≡ true) × (s.opening ≡ closed)
is_busy s v h = ground arith

open_search-Keeps : (q : SearchQuery) (s : Engine) → Keeps s (open_search q s).1
unfolding open_search
open_search-Keeps q s = ground arith

queue_search-Keeps : (s : Engine) → s.opening ≡ closed → Keeps s (queue_search s)
unfolding queue_search
queue_search-Keeps s h = rw h (refl, λ e. e)

try_start_search-Keeps : (s : Engine) → Keeps s (try_start_search s).1
unfolding try_start_search
try_start_search-Keeps s = ground arith

enter_call-Keeps : (s : Engine) → s.opening ≡ closed → Keeps s (enter_call s)
unfolding enter_call
enter_call-Keeps s h = rw h (refl, λ e. e)

end-Keeps : (q : Text) (r : Result) (s : Engine) → Keeps s (end_search_torrents q r s)
unfolding end_search_torrents
end-Keeps q r s = ground arith

note_call-Keeps : (q : Text) (s : Engine) → Keeps s (note_call q s)
unfolding note_call
note_call-Keeps q s = ground arith

look_to_cancel-Keeps : (s : Engine) → Keeps s (look_to_cancel s)
unfolding look_to_cancel
look_to_cancel-Keeps s = ground arith

store_cancel-Keeps : (s : Engine) → Keeps s (store_cancel s)
unfolding store_cancel
store_cancel-Keeps s = ground arith

cancel_for_shutdown-Keeps : (s : Engine) → Keeps s (cancel_for_shutdown s)
unfolding cancel_for_shutdown
cancel_for_shutdown-Keeps s = ground arith

request_stop-Keeps : (s : Engine) → Keeps s (request_stop s)
unfolding request_stop
request_stop-Keeps s = ground arith

-- A call keeps the place and the fate of the task.
abbrev Follows : ℕ → Event → Engine → Type 0
Follows id e s =
    (Moves id e s (engine_step s e)) × Fate id (engine_step s e).phase (engine_step s e)

engine_step-Follows :
    (id : ℕ) (s : Engine) (e : Event)
    → Inv s
    → in_hand s.phase ≡ 1
    → Fate id s.phase s
    → Follows id e s
unfolding engine_step clear_search_history take_completed_search request_shutdown worker_step
engine_step-Follows id s e v i f =
    let kept : (t : Engine) → Keeps s t → (t.phase ≡ s.phase) × Fate id t.phase t =
      λ t k. (k.0, Keeps-Fate id s t k f) in
    let (busy, shut) = is_busy s v i in
    elim e as (λ e. Follows id e s) [
      | start q ↦ kept _ (open_search-Keeps q s)
      | queue_started ↦ kept _ (queue_search-Keeps s shut)
      | begin_call ↦ kept _ (try_start_search-Keeps s)
      | entered_call ↦ kept _ (enter_call-Keeps s shut)
      | end_call q r ↦ kept _ (end-Keeps q r s)
      | noted_call q ↦ kept _ (note_call-Keeps q s)
      | clear_history ↦ kept _ (refl, λ e. e)
      | cancel ↦ kept _ (look_to_cancel-Keeps s)
      | cancel_stored ↦ kept _ (store_cancel-Keeps s)
      | take_completed ↦ kept _ (refl, λ e. e)
      | shut_down ↦ kept _ (refl, λ e. e)
      | cancel_all ↦ kept _ (cancel_for_shutdown-Keeps s)
      | stop_thread ↦ kept _ (request_stop-Keeps s)
      | thread a ↦ worker-Advances id s.phase a s i f
    ]

CancelledAlong-of :
    (id : ℕ) (s : Engine) (es : List Event) → Inv s → Fate id s.phase s → CancelledAlong id s es
CancelledAlong-of id s [] v f = f
CancelledAlong-of id s (e ∷ es) v f = (
  f,
  λ i.
      let (moves, next) = engine_step-Follows id s e v i f in
      (moves, CancelledAlong-of id (engine_step s e) es (engine_step-Inv s e v) next),
)

undecided_cancelled :
    (task : SearchTask) (p : Phase) (s : Engine)
    → IsUndecided task p
    → s.cancel_requested ≡ true
    → Fate task.request_id p s
undecided_cancelled task waiting s u c = tt
undecided_cancelled task (taken t) s (inl e) c = (ground arith, c)
undecided_cancelled task (taken t) s (inr e) c = cc
undecided_cancelled task (performing t) s (inl e) c = cc
undecided_cancelled task (performing t) s (inr e) c = (ground arith, c)
undecided_cancelled task (performed d) s (inl e) c = cc
undecided_cancelled task (performed d) s (inr e) c = cc
undecided_cancelled task published s (inl e) c = cc
undecided_cancelled task published s (inr e) c = cc
undecided_cancelled task stopped s u c = tt

-- A call of `cancelCurrentSearch` that has seen a search, and whose store reaches the flag while a task
-- is in hand and undecided: in every order of calls and of the thread's steps that follows, as long as
-- the task is in hand, each step of the thread brings it forward, to a completion with the identifier
-- of the task and the result that it was cancelled, and then to the publication of that completion;
-- these steps leave the history as it is, and no call changes where the task stands.
pub store_cancel-CancelledAlong :
    (task : SearchTask) (n : ℕ) (s : Engine) (es : List Event)
    → Inv s
    → s.cancelling ≡ suc n
    → IsUndecided task s.phase
    → CancelledAlong task.request_id (store_cancel s) es
store_cancel-CancelledAlong task n s es v c u =
    CancelledAlong-of task.request_id (store_cancel s) es
      (unfold engine_step in engine_step-Inv s cancel_stored v)
      (unfold store_cancel in rw c (undecided_cancelled task s.phase _ u refl))
