-- ===== src/Tests/Engine.antt =====
-- Runs of the search thread.
use hypertube.Common.{◌≡◌, refl, inl, true, false, List, [], ◌∷◌, some, arith, codes, Result, ok}
use hypertube.Search.Types.{SearchQuery, SearchResponse, no_response}
use hypertube.Search.Worker.{
  SearchTask, Engine, Event, start, queue_started, thread, cancel, cancel_stored, take_completed,
  clear_history, taken, initial, engine_run, store_cancel, completion,
}
use hypertube.Search.Worker.Invariant.{Inv, initial-Inv, engine_run-Inv}
use hypertube.Search.Worker.Cancel.{CancelledAlong, store_cancel-CancelledAlong}
use hypertube.Search.Worker.Progress.{worker_completes}

abbrev film_query : SearchQuery
film_query = record { query = codes "film"; max_results = 0; next_token = [] }

abbrev answer : Result × SearchResponse
answer = (ok, no_response)

abbrev a_cancelled_search : List Event
a_cancelled_search =
    start film_query ∷ queue_started ∷ thread answer ∷ cancel ∷ cancel_stored ∷ thread answer ∷ []

engine_run-Inv_example : Inv (engine_run initial a_cancelled_search)
engine_run-Inv_example = engine_run-Inv initial a_cancelled_search initial-Inv

abbrev first_task : SearchTask
first_task = record { query = film_query; request_id = 1 }

-- The engine with its first task pending, and with it in hand.
abbrev pending_engine : Engine
pending_engine = record initial {
  searching = true;
  has_work = true;
  pending_task = first_task;
  next_request_id = 2;
}

-- A call that cancels has seen the search.
abbrev busy_engine : Engine
busy_engine = record pending_engine { has_work = false; phase = taken first_task; cancelling = 1 }

busy-Inv : Inv busy_engine
busy-Inv = record { one = refl; pending = λ h. cc; latest = omega arith }

abbrev what_follows : List Event
what_follows = thread answer ∷ clear_history ∷ thread answer ∷ take_completed ∷ []

store_cancel-CancelledAlong_example : CancelledAlong 1 (store_cancel busy_engine) what_follows
store_cancel-CancelledAlong_example =
    store_cancel-CancelledAlong first_task 0 busy_engine what_follows busy-Inv refl (inl refl)

abbrev left_alone : List Event
left_alone = thread answer ∷ thread answer ∷ thread answer ∷ thread answer ∷ thread answer ∷ []

worker_completes_example :
    ((engine_run pending_engine left_alone).searching ≡ false)
    × ((engine_run pending_engine left_alone).has_work ≡ false)
    × ((engine_run pending_engine left_alone).completed_search
        ≡ some (completion first_task ok no_response))
worker_completes_example =
    worker_completes pending_engine answer answer answer answer answer refl refl
