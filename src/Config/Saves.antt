-- ===== src/Config/Saves.antt =====
-- The queue of saves of src/app/ConfigManager.cpp: `enqueueSave`, `workerLoop`, the end in the
-- destructor, and `waitForAsyncOperations`. A step is what runs under one lock, or the write.
pub mod Order
use hypertube.Common.{
  ℕ, zero, suc, ◌+◌, ◌-◌, ◌≡◌, refl, sym, ap, ◌∙◌, Bool, true, false, not, ◌&&◌, List, [], ◌∷◌,
  ◌++◌, map, append_assoc, append-nil, Option, none, some, Text, arith, length, length-append,
  nat_beq, is_empty, is_some, if◌then◌else◌, if_cases, if_rule, option_rule, Result, ok,
  failure_retry, storage,
}

-- `SaveRequest`; the number stands for the promise.
pub record SaveRequest (J : Type 0) : Type 0 where
  pub path : Text
  pub value : J
  pub number : ℕ

-- Where the thread is: before the lock, behind it with a request, or at its end.
pub data SaverPhase (J : Type 0) : Type 0 where
  waiting_for_saves ended : SaverPhase J
  writing : SaveRequest J → SaverPhase J

-- `completed` are the requests whose promises are kept, with their results, in the order of time.
pub record SaveQueue (J : Type 0) : Type 0 where
  pub save_queue : List (SaveRequest J)
  pub active_jobs : ℕ
  pub stop_worker : Bool
  pub saver : SaverPhase J
  pub completed : List (SaveRequest J × Result)

-- What may happen: a call, the end of the manager, and a step of the thread with the error of the
-- write, if there is one.
pub data SaveEvent (J : Type 0) : Type 0 where
  enqueued : SaveRequest J → SaveEvent J
  destroyed : SaveEvent J
  thread_step : Option Text → SaveEvent J

abbrev pub write_result : Option Text → Result
write_result none = ok
write_result (some error) = failure_retry error storage

module _ {J : Type 0} where
  unfoldable pub enqueue_save : SaveRequest J → SaveQueue J → SaveQueue J
  enqueue_save r s = record s {
    active_jobs = s.active_jobs + 1;
    save_queue = s.save_queue ++ (r ∷ []);
  }

  -- One step of `workerLoop`; it stays where the condition of its wait does not hold.
  unfoldable pub saver_step : Option Text → SaveQueue J → SaveQueue J
  saver_step error s = elim s.saver [
    | waiting_for_saves ↦ elim s.save_queue [
      | [] ↦ if s.stop_worker then record s { saver = ended } else s
      | r ∷ rest ↦ record s { saver = writing r; save_queue = rest }
    ]
    | writing r ↦ record s {
      completed = s.completed ++ ((r, write_result error) ∷ []);
      active_jobs = s.active_jobs - 1;
      saver = waiting_for_saves;
    }
    | ended ↦ s
  ]

  -- The condition that `waitForAsyncOperations` waits for.
  abbrev pub all_saved : SaveQueue J → Bool
  all_saved s = nat_beq s.active_jobs 0 && is_empty s.save_queue

  unfoldable pub save_step : SaveEvent J → SaveQueue J → SaveQueue J
  unfolding enqueue_save saver_step
  save_step (enqueued r) s = enqueue_save r s
  save_step destroyed s = record s { stop_worker = true }
  save_step (thread_step error) s = saver_step error s

  unfoldable pub save_run : List (SaveEvent J) → SaveQueue J → SaveQueue J
  unfolding save_step
  save_run [] s = s
  save_run (e ∷ es) s = save_run es (save_step e s)

  -- The requests of the calls, in their order.
  unfoldable pub requests : List (SaveEvent J) → List (SaveRequest J)
  requests [] = []
  requests (enqueued r ∷ es) = r ∷ requests es
  requests (destroyed ∷ es) = requests es
  requests (thread_step error ∷ es) = requests es

  -- The request that is being written.
  abbrev pub in_writing : SaverPhase J → List (SaveRequest J)
  in_writing (writing r) = r ∷ []
  in_writing waiting_for_saves = []
  in_writing ended = []

  -- What has been asked for, in the order in which it is or will be done.
  abbrev pub in_order : SaveQueue J → List (SaveRequest J)
  in_order s = map (λ c. c.0) s.completed ++ (in_writing s.saver ++ s.save_queue)
