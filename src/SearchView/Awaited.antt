-- ===== src/SearchView/Awaited.antt =====
-- A page that shows a search under way is not left waiting.
use hypertube.Common.{
  ℕ, ◌≡◌, refl, sym, ◌∙◌, ◌⊎◌, inl, inr, Bool, true, false, not, ◌||◌, List, [], ◌∷◌, Option, none,
  some, arith, Text, nat_beq, if◌then◌else◌, if_cases, if_rule, subst, is_empty, Result, elem,
  text_eq,
}
use mathlib.Core.Bool.{false≢true}
use hypertube.Search.Worker
use hypertube.Search.Types.{SearchQuery, SearchResponse}
use hypertube.Search.Favorites.{Favorites}
use hypertube.Search.Worker.{
  Engine, SearchTask, CompletedSearch, Phase, waiting, taken, performing, performed, published,
  stopped, start_search, take_completed_search, worker_at, worker_step, Event, engine_step,
  try_start_search, enter_call, end_search_torrents, note_call, clear_search_history,
  look_to_cancel, store_cancel, request_shutdown, cancel_for_shutdown, request_stop, is_open,
}
use hypertube.Search.Worker.Invariant.{Inv, initial-Inv, start-Inv, engine_step-Inv}
use hypertube.SearchView.{
  SearchPresenter, initial, is_searching, first_page, next_page, start, load_more, update, complete,
  after_take, refresh_favorites,
}

abbrev InHand : ℕ → Phase → Type 0
InHand id waiting = ⊥
InHand id (taken task) = task.request_id ≡ id
InHand id (performing task) = task.request_id ≡ id
InHand id (performed done) = done.request_id ≡ id
InHand id published = ⊥
InHand id stopped = ⊥

-- The thread will not publish another completion of itself.
abbrev is_settled : Phase → Bool
is_settled waiting = true
is_settled published = true
is_settled stopped = true
is_settled _ = false

abbrev Waits : ℕ → Engine → Type 0
Waits id e = (e.has_work ≡ true) × (e.pending_task.request_id ≡ id)

abbrev Ready : ℕ → Phase → Engine → Type 0
Ready id p e =
    (c : CompletedSearch) × (e.completed_search ≡ some c)
    × (c.request_id ≡ id)
    × (e.has_work ≡ false)
    × (is_settled p ≡ true)

-- The task with the identifier is pending, or in hand, or its completion lies there and no other
-- task is under way that could replace it.
abbrev pub IsComing : ℕ → Phase → Engine → Type 0
IsComing id p e = Waits id e ⊎ (InHand id p ⊎ Ready id p e)

-- If the page shows a search under way, the completion that it waits for is coming.
abbrev pub IsAwaited : SearchPresenter → Engine → Type 0
IsAwaited p e = is_searching p.state ≡ true → IsComing p.active_request_id e.phase e

start_search-Waits :
    (q : SearchQuery) (e : Engine)
    → (start_search q e).0.success ≡ true
    → Waits e.next_request_id (start_search q e).1
unfolding start_search
start_search-Waits q e h = ground arith

start_search_refused :
    (q : SearchQuery) (e : Engine) → (start_search q e).0.success ≡ false → (start_search q e).1 ≡ e
unfolding start_search
start_search_refused q e h = ground arith

-- An operation returns a result, the page and the engine.
abbrev Awaits : Result × SearchPresenter × Engine → Type 0
Awaits r = IsAwaited r.1 r.2

start-IsAwaited :
    (query : Text) (p : SearchPresenter) (e : Engine) → IsAwaited p e → Awaits (start query p e)
unfolding start
start-IsAwaited query p e h = if_rule Awaits (is_empty query) _ _ h (
    if_rule Awaits (is_searching p.state) _ _ h (
      if_cases Awaits (not (start_search (first_page query) e).0.success) _ _
        (λ bad. subst (IsAwaited p) (sym (start_search_refused _ e (ground arith))) h)
        (λ good _. inl (start_search-Waits (first_page query) e (ground arith)))))

load_more-IsAwaited : (p : SearchPresenter) (e : Engine) → IsAwaited p e → Awaits (load_more p e)
unfolding load_more
load_more-IsAwaited p e h =
    if_rule Awaits
      (is_searching p.state || is_empty p.current_query || is_empty p.next_token || not p.has_more)
      _ _ h
      (if_cases Awaits (not (start_search (next_page p) e).0.success) _ _
        (λ bad. subst (IsAwaited p) (sym (start_search_refused _ e (ground arith))) h)
        (λ good _. inl (start_search-Waits (next_page p) e (ground arith))))

idle_queue :
    (e : Engine) (done : CompletedSearch) → e.phase ≡ performed done → Inv e → e.has_work ≡ false
idle_queue e done eq v = ground arith

worker-IsComing :
    (id : ℕ) (a : Result × SearchResponse) (ph : Phase) (e : Engine)
    → e.phase ≡ ph
    → Inv e
    → IsComing id ph e
    → IsComing id (worker_at ph a e).phase (worker_at ph a e)
unfolding worker_at
worker-IsComing id a waiting e eq v h = ground arith
worker-IsComing id a (taken task) e eq v h = ground arith
worker-IsComing id a (performing task) e eq v h = ground arith
worker-IsComing id a (performed done) e eq v (inl h) = inl h
worker-IsComing id a (performed done) e eq v (inr (inl h)) =
    inr (inr (done, refl, h, idle_queue e done eq v, refl))
worker-IsComing id a (performed done) e eq v (inr (inr h)) = cc (h.4)
worker-IsComing id a published e eq v h = ground arith
worker-IsComing id a stopped e eq v h = ground arith

complete_ends :
    (c : CompletedSearch) (p : SearchPresenter) → is_searching (complete c p).state ≡ false
unfolding complete
complete_ends c p = ground arith

after_take-IsAwaited :
    (p : SearchPresenter) (e : Engine)
    → IsAwaited p e
    → IsAwaited (after_take (take_completed_search e).0 p) (take_completed_search e).1
unfolding after_take take_completed_search
after_take-IsAwaited p e h = go e.completed_search refl
  where
    go :
        (o : Option CompletedSearch)
        → e.completed_search ≡ o
        → IsAwaited (after_take o p) (record e { completed_search = none })
    go none none_there = λ l. ground (arith, h l)
    go (some c) there =
        if_cases (λ q. IsAwaited q (record e { completed_search = none }))
          (nat_beq c.request_id p.active_request_id) (complete c p) p
          (λ _ l. absurd (false≢true (sym (complete_ends c p) ∙ l)))
          (λ other l. ground (arith, h l))

refresh-IsAwaited :
    (f : Favorites) (p : SearchPresenter) (e : Engine)
    → IsAwaited p e
    → IsAwaited (refresh_favorites f p) e
unfolding refresh_favorites
refresh-IsAwaited f p e h =
    if_rule (λ q. IsAwaited q e) (nat_beq p.favorites_revision f.favorites_revision) p _ h h

-- What happens to the page and the engine: a call of the page, a step of the thread, or a call of
-- the engine that is no asynchronous search.
pub data PageEvent : Type 0 where
  searches : Text → PageEvent
  loads_more : PageEvent
  updates : Favorites → PageEvent
  engine : Event → PageEvent

-- An asynchronous search is started by the page alone, and its completion taken by the page alone.
abbrev is_foreign : Event → Bool
is_foreign (Event.start q) = true
is_foreign Event.queue_started = true
is_foreign Event.take_completed = true
is_foreign _ = false

unfoldable pub page_step : SearchPresenter × Engine → PageEvent → SearchPresenter × Engine
page_step (p, e) (searches query) = ((start query p e).1, (start query p e).2)
page_step (p, e) loads_more = ((load_more p e).1, (load_more p e).2)
page_step (p, e) (updates f) = update f p e
page_step (p, e) (engine event) = if is_foreign event then (p, e) else (p, engine_step e event)

unfoldable pub page_run : SearchPresenter × Engine → List PageEvent → SearchPresenter × Engine
page_run s [] = s
page_run s (x ∷ xs) = page_run (page_step s x) xs

-- What a task that is coming is read from.
same-IsComing :
    (id : ℕ) (e f : Engine)
    → f.phase ≡ e.phase
    → f.has_work ≡ e.has_work
    → f.pending_task ≡ e.pending_task
    → f.completed_search ≡ e.completed_search
    → IsComing id e.phase e
    → IsComing id f.phase f
same-IsComing id e f p w t c h = rw (p, w, t, c) h

enter_call-IsComing :
    (id : ℕ) (e : Engine) → IsComing id e.phase e → IsComing id (enter_call e).phase (enter_call e)
unfolding enter_call
enter_call-IsComing id e h =
    same-IsComing id e (enter_call e) (ground arith) (ground arith) (ground arith) (ground arith) h

store_cancel-IsComing :
    (id : ℕ) (e : Engine)
    → IsComing id e.phase e
    → IsComing id (store_cancel e).phase (store_cancel e)
unfolding store_cancel
store_cancel-IsComing id e h =
    same-IsComing id e (store_cancel e) (ground arith) (ground arith) (ground arith) (ground arith)
      h

engine-IsComing :
    (id : ℕ) (e : Engine) (event : Event)
    → is_foreign event ≡ false
    → Inv e
    → IsComing id e.phase e
    → IsComing id (engine_step e event).phase (engine_step e event)
unfolding engine_step
engine-IsComing id e (Event.start q) n v h = cc
engine-IsComing id e Event.queue_started n v h = cc
engine-IsComing id e Event.begin_call n v h =
    unfold try_start_search in
    if_rule {A = Bool × Engine} (λ r. IsComing id r.1.phase r.1) e.searching _ _ h h
engine-IsComing id e Event.entered_call n v h = enter_call-IsComing id e h
engine-IsComing id e (Event.end_call q r) n v h =
    unfold end_search_torrents in
    if_rule {A = Engine} (λ r. IsComing id r.phase r) e.in_call _ _ h h
engine-IsComing id e (Event.noted_call q) n v h =
    unfold note_call in if_rule {A = Engine} (λ r. IsComing id r.phase r) (elem q e.unnoted) _ _ h h
engine-IsComing id e Event.clear_history n v h = unfold clear_search_history in h
engine-IsComing id e Event.cancel n v h =
    unfold look_to_cancel in if_rule {A = Engine} (λ r. IsComing id r.phase r) e.searching _ _ h h
engine-IsComing id e Event.cancel_stored n v h = store_cancel-IsComing id e h
engine-IsComing id e Event.take_completed n v h = cc
engine-IsComing id e Event.shut_down n v h = unfold request_shutdown in h
engine-IsComing id e Event.cancel_all n v h =
    unfold cancel_for_shutdown in
    if_rule {A = Engine} (λ r. IsComing id r.phase r) e.shutting_down _ _ h h
engine-IsComing id e Event.stop_thread n v h =
    unfold request_stop in
    if_rule {A = Engine} (λ r. IsComing id r.phase r) (is_open e.opening) _ _ h h
engine-IsComing id e (Event.thread a) n v h =
    unfold worker_step in worker-IsComing id a e.phase e refl v h

page_step-Inv : (s : SearchPresenter × Engine) (x : PageEvent) → Inv s.1 → Inv (page_step s x).1
unfolding page_step
page_step-Inv (p, e) (searches query) v =
    unfold start in
    if_rule {A = Result × SearchPresenter × Engine} (λ r. Inv r.2) (is_empty query) _ _ v
      (if_rule {A = Result × SearchPresenter × Engine} (λ r. Inv r.2) (is_searching p.state) _ _ v
        (if_rule {A = Result × SearchPresenter × Engine} (λ r. Inv r.2)
          (not (start_search (first_page query) e).0.success) _ _ (start-Inv _ e v)
          (start-Inv _ e v)))
page_step-Inv (p, e) loads_more v =
    unfold load_more in
    if_rule {A = Result × SearchPresenter × Engine} (λ r. Inv r.2)
      (is_searching p.state || is_empty p.current_query || is_empty p.next_token || not p.has_more)
      _ _ v
      (if_rule {A = Result × SearchPresenter × Engine} (λ r. Inv r.2)
        (not (start_search (next_page p) e).0.success) _ _ (start-Inv _ e v) (start-Inv _ e v))
page_step-Inv (p, e) (updates f) v =
    unfold update engine_step in engine_step-Inv e Event.take_completed v
page_step-Inv (p, e) (engine event) v =
    if_rule {A = SearchPresenter × Engine} (λ r. Inv r.1) (is_foreign event) _ _ v
      (engine_step-Inv e event v)

page_step-IsAwaited :
    (s : SearchPresenter × Engine) (x : PageEvent)
    → Inv s.1
    → IsAwaited s.0 s.1
    → IsAwaited (page_step s x).0 (page_step s x).1
unfolding page_step
page_step-IsAwaited (p, e) (searches query) v h = start-IsAwaited query p e h
page_step-IsAwaited (p, e) loads_more v h = load_more-IsAwaited p e h
page_step-IsAwaited (p, e) (updates f) v h =
    unfold update in after_take-IsAwaited (refresh_favorites f p) e (refresh-IsAwaited f p e h)
page_step-IsAwaited (p, e) (engine event) v h =
    if_cases {A = SearchPresenter × Engine} (λ r. IsAwaited r.0 r.1) (is_foreign event) _ _ (λ _. h)
      (λ own l. engine-IsComing p.active_request_id e event own v (h l))

page_run-IsAwaited :
    (s : SearchPresenter × Engine) (xs : List PageEvent)
    → Inv s.1
    → IsAwaited s.0 s.1
    → IsAwaited (page_run s xs).0 (page_run s xs).1
unfolding page_run
page_run-IsAwaited s [] v h = h
page_run-IsAwaited s (x ∷ xs) v h =
    page_run-IsAwaited (page_step s x) xs (page_step-Inv s x v) (page_step-IsAwaited s x v h)

-- From a new page and a new engine on, in every order of the page's calls, the other calls of the
-- engine and the thread's steps: where the page shows a search under way, the task of its request is
-- pending or in hand, or the completion of that request lies there for the next update.
pub page_run-IsComing :
    (xs : List PageEvent) (p : SearchPresenter) (e : Engine)
    → page_run (initial, Worker.initial) xs ≡ (p, e)
    → is_searching p.state ≡ true
    → IsComing p.active_request_id e.phase e
page_run-IsComing xs p e r busy =
    subst (λ s. IsAwaited s.0 s.1) r
      (page_run-IsAwaited (initial, Worker.initial) xs initial-Inv λ l. cc) busy
