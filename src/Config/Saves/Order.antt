-- ===== src/Config/Saves/Order.antt =====
-- Saves are done one after the other, in the order of the calls, and none is lost.
use hypertube.Common.{
  ◌≡◌, refl, sym, ap, ◌∙◌, true, List, [], ◌∷◌, ◌++◌, map, append_assoc, append-nil, Option, Text,
  arith, length, length-append, Result,
}
use hypertube.Config.Saves.{
  SaveRequest, waiting_for_saves, ended, writing, SaveQueue, SaveEvent, enqueued, destroyed,
  thread_step, enqueue_save, write_result, saver_step, all_saved, save_step, save_run, requests,
  in_writing, in_order,
}

module _ {J : Type 0} where
  map-append :
      (xs ys : List (SaveRequest J × Result))
      → map (λ (c : SaveRequest J × Result). c.0) (xs ++ ys)
        ≡ map (λ (c : SaveRequest J × Result). c.0) xs
          ++ map (λ (c : SaveRequest J × Result). c.0) ys
  map-append [] ys = refl
  map-append (x ∷ xs) ys = ap (λ zs. x.0 ∷ zs) (map-append xs ys)

  -- The count of the jobs is the number of those that are not done.
  unfoldable pub Counted : SaveQueue J → Type 0
  Counted s = s.active_jobs ≡ length (in_writing s.saver ++ s.save_queue)

  saver_step-Counted :
      (error : Option Text) (s : SaveQueue J) → Counted s → Counted (saver_step error s)
  unfolding saver_step Counted
  saver_step-Counted error s v = ground (arith, v)

  enqueue_save-Counted :
      (r : SaveRequest J) (s : SaveQueue J) → Counted s → Counted (enqueue_save r s)
  unfolding enqueue_save Counted
  enqueue_save-Counted r s v = omega (
    arith,
    v,
    length-append (in_writing s.saver) s.save_queue,
    length-append (in_writing s.saver) (s.save_queue ++ (r ∷ [])),
    length-append s.save_queue (r ∷ []),
  )

  saver_step_order :
      (error : Option Text) (s : SaveQueue J) → in_order (saver_step error s) ≡ in_order s
  unfolding saver_step
  saver_step_order error s =
      elim s.saver
        as (λ p.
          in_order (saver_step error (record s { saver = p }))
          ≡ in_order (record s { saver = p })) [
            | waiting_for_saves ↦ ground arith
            | ended ↦ refl
            | writing r ↦
                ap (λ xs. xs ++ s.save_queue)
                  (map-append s.completed ((r, write_result error) ∷ []))
                ∙ append_assoc (map (λ c. c.0) s.completed) (r ∷ []) s.save_queue
          ]

  enqueue_save_order :
      (r : SaveRequest J) (s : SaveQueue J) → in_order (enqueue_save r s) ≡ in_order s ++ (r ∷ [])
  unfolding enqueue_save
  enqueue_save_order r s =
      ap (λ xs. map (λ (c : SaveRequest J × Result). c.0) s.completed ++ xs)
        (sym (append_assoc (in_writing s.saver) s.save_queue (r ∷ [])))
      ∙ sym
          (append_assoc (map (λ c. c.0) s.completed) (in_writing s.saver ++ s.save_queue) (r ∷ []))

  save_run_order :
      (es : List (SaveEvent J)) (s : SaveQueue J)
      → in_order (save_run es s) ≡ in_order s ++ requests es
  unfolding save_run save_step requests
  save_run_order [] s = sym (append-nil (in_order s))
  save_run_order (enqueued r ∷ es) s =
      save_run_order es (enqueue_save r s)
      ∙ ap (λ xs. xs ++ requests es) (enqueue_save_order r s)
      ∙ append_assoc (in_order s) (r ∷ []) (requests es)
  save_run_order (destroyed ∷ es) s = save_run_order es (record s { stop_worker = true })
  save_run_order (thread_step error ∷ es) s =
      save_run_order es (saver_step error s)
      ∙ ap (λ xs. xs ++ requests es) (saver_step_order error s)

  save_run-Counted :
      (es : List (SaveEvent J)) (s : SaveQueue J) → Counted s → Counted (save_run es s)
  unfolding save_run save_step Counted
  save_run-Counted [] s v = v
  save_run-Counted (enqueued r ∷ es) s v = save_run-Counted es _ (enqueue_save-Counted r s v)
  save_run-Counted (destroyed ∷ es) s v = save_run-Counted es (record s { stop_worker = true }) v
  save_run-Counted (thread_step error ∷ es) s v =
      save_run-Counted es _ (saver_step-Counted error s v)

  nothing_left :
      (s : SaveQueue J) → Counted s → all_saved s ≡ true → in_writing s.saver ++ s.save_queue ≡ []
  unfolding Counted
  nothing_left s v done = ground (arith, v, done)

  -- From a state whose count of the jobs is right, after any steps of the thread and of the callers: if
  -- `waitForAsyncOperations` would not wait, the saves that are done are those that were done or asked
  -- for before, and then those of the calls, in their order.
  pub save_run-all_saved :
      (es : List (SaveEvent J)) (s : SaveQueue J)
      → Counted s
      → all_saved (save_run es s) ≡ true
      → map (λ (c : SaveRequest J × Result). c.0) (save_run es s).completed
        ≡ in_order s ++ requests es
  save_run-all_saved es s v done =
      let t = save_run es s in
      sym (append-nil (map (λ c. c.0) t.completed))
      ∙ ap (λ xs. map (λ (c : SaveRequest J × Result). c.0) t.completed ++ xs)
          (sym (nothing_left t (save_run-Counted es s v) done))
      ∙ save_run_order es s
