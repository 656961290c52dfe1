-- ===== src/Format.antt =====
-- src/presentation/UiFormatters.cpp: the texts that need no printing of fractions.
use hypertube.Common.{
  ℕ, ℤ, pos, negsuc, ◌/◌, ◌*◌, ◌++◌, Bool, Text, codes, to_string, ltb, leb, nat_beq, if◌then◌else◌,
}

unfoldable pub format_eta : ℤ → Text
format_eta (negsuc n) = codes "N/A"
format_eta (pos seconds) =
    if leb (24 * 60 * 60) seconds
    then to_string (seconds / (24 * 60 * 60)) ++ codes " days"
    else if leb (60 * 60) seconds
    then to_string (seconds / (60 * 60)) ++ codes " hours"
    else if leb 60 seconds
    then to_string (seconds / 60) ++ codes " minutes"
    else to_string seconds ++ codes " seconds"

-- `local_date` is the date that the system prints for a time; the two failures are those of the time
-- and of the printing.
pub data LocalDate : Type 0 where
  no_local_time not_printed : LocalDate
  printed : Text → LocalDate

unfoldable pub format_unix_date : (ℕ → LocalDate) → ℤ → Text
format_unix_date local_date (negsuc n) = codes "Invalid TS"
format_unix_date local_date (pos time) =
    let seconds = if ltb 1000000000000 time then time / 1000 else time in
    if nat_beq time 0
    then codes "N/A"
    else if ltb 4102444800 seconds
    then codes "Invalid TS"
    else elim (local_date seconds) [
      | no_local_time ↦ codes "TM Error"
      | not_printed ↦ codes "Format Error"
      | printed date ↦ date
    ]

unfoldable pub format_count : ℤ → Text
format_count (pos n) = to_string n
format_count (negsuc n) = to_string 0

unfoldable pub torrent_state_to_string : ℕ → Bool → Bool → Text
torrent_state_to_string state paused finished =
    if paused
    then codes "Paused"
    else if finished
    then codes "Finished"
    else if nat_beq state 1
    then codes "Checking files"
    else if nat_beq state 2
    then codes "Downloading metadata"
    else if nat_beq state 3
    then codes "Downloading"
    else if nat_beq state 4
    then codes "Finished"
    else if nat_beq state 5
    then codes "Seeding"
    else if nat_beq state 7
    then codes "Checking resume data"
    else codes "Unknown"
