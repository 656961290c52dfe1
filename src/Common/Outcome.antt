-- ===== src/Common/Outcome.antt =====
-- include/Result.hpp: what an operation reports.
use mathlib.Core.Bool.{Bool, true, false}
use mathlib.Core.List.{[]}
use hypertube.Common.Keys.{Text}

pub data ResultCode : Type 0 where
  no_code invalid_input not_found duplicate busy cancelled network unauthorized rate_limited parse
        storage unavailable partial internal :
      ResultCode

pub record Result : Type 0 where
  pub success : Bool
  pub message : Text
  pub code : ResultCode
  pub retryable : Bool

abbrev pub ok : Result
ok = record { success = true; message = []; code = no_code; retryable = false }

-- `Result::Failure(message, code)`
abbrev pub failure : Text → ResultCode → Result
failure m c = record { success = false; message = m; code = c; retryable = false }

-- `Result::Failure(message, code, true)`
abbrev pub failure_retry : Text → ResultCode → Result
failure_retry m c = record { success = false; message = m; code = c; retryable = true }
