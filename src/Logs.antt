-- ===== src/Logs.antt =====
-- src/utils/Logger.cpp and src/presentation/LogsPresenter.cpp: the recent records, the files of the
-- log, and the rows of its page.
pub mod Recent
pub mod Rotation
use hypertube.Common.{
  ℕ, zero, suc, ◌+◌, ◌-◌, ◌*◌, ◌%◌, ◌^◌, Bool, true, false, not, ◌&&◌, ◌||◌, List, [], ◌∷◌, ◌++◌,
  Option, none, some, Text, codes, ltb, leb, nat_beq, length, is_some, is_empty, drop,
  if◌then◌else◌,
}

pub data LogLevel : Type 0 where
  debug info warning error : LogLevel

abbrev pub level_name : LogLevel → Text
level_name debug = codes "DEBUG"
level_name info = codes "INFO"
level_name warning = codes "WARN"
level_name error = codes "ERROR"

pub record LogRecord : Type 0 where
  pub timestamp : ℕ
  pub level : LogLevel
  pub category : Text
  pub message : Text

abbrev pub max_recent_logs : ℕ
max_recent_logs = 1000

-- The file of the log and its backups by number; each is what it holds.
pub record LogFiles : Type 0 where
  pub log_file : Option Text
  pub backups : ℕ → Option Text

-- The variables of the module.
pub record Logger : Type 0 where
  pub recent : List LogRecord
  pub revision : ℕ
  pub max_log_size : ℕ
  pub max_backup_files : ℕ
  pub files : LogFiles

unfoldable pub set_max_log_size : ℕ → Logger → Logger
set_max_log_size bytes s = record s {
  max_log_size = if ltb 0 bytes then bytes else 5 * 1024 * 1024;
}

unfoldable pub set_max_backup_files : ℕ → Logger → Logger
set_max_backup_files count s = record s { max_backup_files = count }

-- The loop that takes records off the front.
unfoldable pub drop_oldest : List LogRecord → List LogRecord
drop_oldest [] = []
drop_oldest (r ∷ rs) =
    let rest = drop_oldest rs in if ltb max_recent_logs (length (r ∷ rs)) then rest else r ∷ rs

-- What the file system answers in one rotation: whether the question for a file is answered, whether
-- the size of the log can be read, and whether a file is removed and renamed. The log has the number 0,
-- and its backups have theirs; a file is renamed to the next number.
pub record RotationAnswers : Type 0 where
  pub exists : ℕ → Bool
  pub file_size : Bool
  pub remove : ℕ → Bool
  pub rename : ℕ → Bool

-- The files by number.
abbrev pub numbered : LogFiles → ℕ → Option Text
numbered f zero = f.log_file
numbered f (suc i) = f.backups (suc i)

-- `remove` of the next number, and `rename` to it; errors are not looked at.
abbrev pub rename_up : RotationAnswers → ℕ → (ℕ → Option Text) → ℕ → Option Text
rename_up answers i files j =
    if answers.rename i
    then (if nat_beq j (suc i) then files i else if nat_beq j i then none else files j)
    else if nat_beq j (suc i) && answers.remove (suc i)
    then none
    else files j

-- A backup takes the next number.
abbrev pub move_up : RotationAnswers → ℕ → (ℕ → Option Text) → ℕ → Option Text
move_up answers i files j =
    if answers.exists i && is_some (files i) then rename_up answers i files j else files j

-- The loop over the numbers, from the greatest down to 2.
unfoldable pub move_all_up : RotationAnswers → ℕ → (ℕ → Option Text) → ℕ → Option Text
move_all_up answers zero files = files
move_all_up answers (suc zero) files = files
move_all_up answers (suc (suc i)) files =
    move_all_up answers (suc i) (move_up answers (suc i) files)

-- The log itself is there.
unfoldable pub rotate : RotationAnswers → ℕ → LogFiles → LogFiles
unfolding move_all_up
rotate answers max_backups f =
    let moved = move_all_up answers max_backups (numbered f) in
    if nat_beq max_backups 0
    then record { log_file = if answers.remove 0 then none else f.log_file; backups = moved }
    else record { log_file = rename_up answers 0 moved 0; backups = rename_up answers 0 moved }

unfoldable pub rotate_logs_if_needed : RotationAnswers → Logger → LogFiles
unfolding rotate
rotate_logs_if_needed answers s = elim s.files.log_file [
  | none ↦ s.files
  | some content ↦
      if not (answers.exists 0) || not answers.file_size || ltb (length content) s.max_log_size
      then s.files
      else rotate answers s.max_backup_files s.files
]

abbrev pub log_line : Text → LogRecord → Text
log_line stamp r =
    stamp
    ++ (codes " ["
        ++ (level_name r.level
            ++ (codes "] [" ++ (r.category ++ (codes "] " ++ (r.message ++ codes "\n"))))))

-- `stamp` is the printed time; the line is not written where the file cannot be opened.
unfoldable pub log : RotationAnswers → Text → Bool → LogRecord → Logger → Logger
unfolding drop_oldest rotate_logs_if_needed
log answers stamp opens r s =
    let files = rotate_logs_if_needed answers s in
    record s {
      recent = drop_oldest (s.recent ++ (r ∷ []));
      revision = (s.revision + 1) % 2 ^ 64;
      files =
          if opens
          then record files {
            log_file =
                some
                  (elim files.log_file [ none ↦ [] | some content ↦ content ] ++ log_line stamp r);
          }
          else files;
    }

unfoldable pub clear_recent : Logger → Logger
clear_recent s = record s { recent = []; revision = (s.revision + 1) % 2 ^ 64 }

pub record LogsPresenter : Type 0 where
  pub max_entries : ℕ
  pub show_debug : Bool
  pub show_info : Bool
  pub show_warnings : Bool
  pub show_errors : Bool

unfoldable pub set_level_enabled : LogLevel → Bool → LogsPresenter → LogsPresenter
set_level_enabled debug enabled s = record s { show_debug = enabled }
set_level_enabled info enabled s = record s { show_info = enabled }
set_level_enabled warning enabled s = record s { show_warnings = enabled }
set_level_enabled error enabled s = record s { show_errors = enabled }

unfoldable pub level_enabled : LogLevel → LogsPresenter → Bool
level_enabled debug s = s.show_debug
level_enabled info s = s.show_info
level_enabled warning s = s.show_warnings
level_enabled error s = s.show_errors

-- A record as it is shown, but for the format of its time.
pub record LogRow : Type 0 where
  pub row_time : ℕ
  pub row_level : Text
  pub row_category : Text
  pub row_message : Text
  pub row_severity : ℕ

abbrev pub severity : LogLevel → ℕ
severity debug = 0
severity info = 1
severity warning = 2
severity error = 3

abbrev pub log_row : LogRecord → LogRow
log_row r = record {
  row_time = r.timestamp;
  row_level = level_name r.level;
  row_category = r.category;
  row_message = r.message;
  row_severity = severity r.level;
}

-- The loop from `first`, which is the number of records that are skipped.
unfoldable pub rows_from : LogsPresenter → List LogRecord → List LogRow
unfolding level_enabled
rows_from s [] = []
rows_from s (r ∷ rs) =
    let rest = rows_from s rs in if level_enabled r.level s then log_row r ∷ rest else rest

unfoldable pub build_rows : LogsPresenter → Logger → List LogRow
unfolding rows_from
build_rows s logger = rows_from s (drop (length logger.recent - s.max_entries) logger.recent)

-- `drainEvents` gives the messages; those that are empty are passed over.
unfoldable pub update_logs : List (RotationAnswers × Text × Bool × LogRecord) → Logger → Logger
unfolding log
update_logs [] logger = logger
update_logs ((answers, stamp, opens, r) ∷ events) logger =
    update_logs events (if is_empty r.message then logger else log answers stamp opens r logger)

unfoldable pub set_max_entries : ℕ → LogsPresenter → LogsPresenter
set_max_entries n s = record s { max_entries = n }
