-- ===== src/Search/Worker/Progress.antt =====
-- The thread finishes what it is given.
use hypertube.Common.{◌≡◌, true, false, [], ◌∷◌, some, arith, if◌then◌else◌, Result}
use hypertube.Search.Types.{SearchResponse, no_response}
use hypertube.Search.Worker.{
  CompletedSearch, waiting, Engine, cancelled_result, completion, worker_step, thread, engine_step,
  engine_run,
}

-- What the thread publishes for the pending task, if `performSearch` answers `a` or `b`: the first
-- step takes the task, the second looks at the flag, and the third performs the search.
abbrev outcome : Engine → Result × SearchResponse → CompletedSearch
outcome s a =
    if s.cancel_requested
    then completion s.pending_task cancelled_result no_response
    else completion s.pending_task a.0 a.1

-- Left to itself, a thread that waits completes a pending search in five steps: the completion of the
-- pending task is there, with the answer of `performSearch` in the third step, or as cancelled where
-- that was requested; and the engine is free again, with no task pending.
pub worker_completes :
    (s : Engine) (a b c d e : Result × SearchResponse)
    → s.phase ≡ waiting
    → s.has_work ≡ true
    → let t = engine_run s (thread a ∷ thread b ∷ thread c ∷ thread d ∷ thread e ∷ []) in
      (t.searching ≡ false) × (t.has_work ≡ false) × (t.completed_search ≡ some (outcome s c))
unfolding engine_run engine_step worker_step
worker_completes s a b c d e p h = ground arith
