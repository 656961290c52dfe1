-- ===== src/Tests/Logs.antt =====
-- Runs of the log and of the saves.
use hypertube.Common.{
  ℕ, suc, ◌-◌, ◌≤◌, ◌<◌, ◌≡◌, refl, true, false, List, [], ◌∷◌, ◌++◌, map, none, some, Text, codes,
  nat_beq, if◌then◌else◌, length, drop, arith, Result,
}
use hypertube.Logs.{RotationAnswers, LogRecord, LogFiles, Logger, info, max_recent_logs, rotate}
use hypertube.Logs.Recent.{LogEvent, logged, cleared, logger_run, since_clear, logger_run-recent}
use hypertube.Logs.Rotation.{rotate-kept}
use hypertube.Config.Saves.{
  SaveRequest, SaveQueue, SaveEvent, enqueued, destroyed, thread_step, waiting_for_saves, save_run,
  requests, all_saved, in_order, saver_step, enqueue_save, save_step,
}
use hypertube.Config.Saves.Order.{Counted, save_run-all_saved}

abbrev started : LogRecord
started = record { timestamp = 1; level = info; category = codes "app"; message = codes "started" }

-- A file system that does all that it is asked, and one that does nothing.
abbrev all_done : RotationAnswers
all_done = record { exists = λ i. true; file_size = true; remove = λ i. true; rename = λ i. true }

abbrev nothing_done : RotationAnswers
nothing_done = record {
  exists = λ i. true;
  file_size = true;
  remove = λ i. false;
  rename = λ i. false;
}

abbrev three_files : LogFiles
three_files = record {
  log_file = some (codes "new");
  backups = λ j.
      if nat_beq j 1
      then some (codes "old")
      else if nat_beq j 2
      then some (codes "older")
      else none;
}

abbrev quiet_logger : Logger
quiet_logger = record {
  recent = [];
  revision = 0;
  max_log_size = 3;
  max_backup_files = 3;
  files = three_files;
}

abbrev log_events : List LogEvent
log_events =
    logged all_done [] true started
    ∷ cleared
    ∷ logged all_done (codes "now") true started
    ∷ logged nothing_done [] false started
    ∷ []

logger_run-recent_example :
    (logger_run log_events quiet_logger).recent
    ≡ drop (length (since_clear log_events []) - max_recent_logs) (since_clear log_events [])
logger_run-recent_example = logger_run-recent log_events quiet_logger refl

rotate-kept_example :
    ((rotate all_done 3 three_files).backups 1 ≡ three_files.log_file)
    × ((j : ℕ) (content : Text)
        → 1 ≤ j
        → j < 3
        → three_files.backups j ≡ some content
        → (rotate all_done 3 three_files).backups (suc j) ≡ some content)
rotate-kept_example = rotate-kept all_done 3 three_files (λ i l. (refl, refl)) (omega arith)

abbrev idle_saves : SaveQueue ℕ
idle_saves = record {
  save_queue = [];
  active_jobs = 0;
  stop_worker = false;
  saver = waiting_for_saves;
  completed = [];
}

abbrev request_of : ℕ → SaveRequest ℕ
request_of n = record { path = codes "settings.json"; value = n; number = n }

abbrev save_events : List (SaveEvent ℕ)
save_events =
    enqueued (request_of 0)
    ∷ thread_step none
    ∷ enqueued (request_of 1)
    ∷ destroyed
    ∷ thread_step (some (codes "disk full"))
    ∷ thread_step none
    ∷ thread_step none
    ∷ thread_step none
    ∷ []

idle-Counted : Counted idle_saves
unfolding Counted
idle-Counted = refl

run_is_done : all_saved (save_run save_events idle_saves) ≡ true
unfolding save_run save_step enqueue_save saver_step
run_is_done = refl

save_run-all_saved_example :
    map (λ (c : SaveRequest ℕ × Result). c.0) (save_run save_events idle_saves).completed
    ≡ in_order idle_saves ++ requests save_events
save_run-all_saved_example = save_run-all_saved save_events idle_saves idle-Counted run_is_done
