-- ===== src/Search/Http.antt =====
-- `WriteCallback`, `ProgressCallback` and `makeHttpRequest` of src/app/SearchEngine.cpp. What cURL
-- answers to each attempt, and whether a cancellation is seen in the pause behind it, are arguments.
pub mod Retries
pub mod Limit
use hypertube.Common.{
  ℕ, zero, suc, ◌+◌, ◌-◌, ◌*◌, ◌^◌, min, max, Bool, true, false, not, ◌&&◌, ◌||◌, List, [], ◌∷◌,
  ◌++◌, Option, none, some, Text, ltb, leb, nat_beq, if◌then◌else◌, length, msg, to_string, Result,
  ok, failure, failure_retry, cancelled, unauthorized, rate_limited, network,
}

abbrev pub max_response_size : ℕ
max_response_size = 10 * 1024 * 1024

-- `WriteCallback`: `none` where it returns 0, which makes cURL give up the transfer.
unfoldable pub write_callback : Text → Text → Option Text
write_callback body chunk =
    if ltb max_response_size (length body + length chunk) then none else some (body ++ chunk)

-- The chunks of one transfer.
unfoldable pub receive : Text → List Text → Option Text
unfolding write_callback
receive body [] = some body
receive body (chunk ∷ chunks) = elim (write_callback body chunk) [
  | none ↦ none
  | some more ↦ receive more chunks
]

-- `ProgressCallback`: cURL gives up a transfer where it is not 0.
pub progress_callback : Bool → ℕ
progress_callback cancel_requested = if cancel_requested then 1 else 0

-- What `curl_easy_perform` came to, each with the body that was received: given up by the callback, an
-- answer with its status, or an error with its text.
pub data Transfer : Type 0 where
  aborted : Text → Transfer
  answered : ℕ → Text → Transfer
  broken : Text → Text → Transfer

abbrev pub user_cancelled : Result
user_cancelled = failure (msg "Search cancelled by user") cancelled

abbrev pub transient : ℕ → Bool
transient status = nat_beq status 429 || leb 500 status

-- `500 * (1 << std::min(attempt, 4))` milliseconds
unfoldable pub backoff : ℕ → ℕ
backoff attempt = 500 * 2 ^ min attempt 4

pub http_error : ℕ → Text
http_error status = msg "HTTP Error: " ++ to_string status

-- What the request has come to, the body, the attempts made and the pauses between them.
pub record HttpRun : Type 0 where
  pub result : Result
  pub response : Text
  pub attempts : ℕ
  pub waits : List ℕ

abbrev stop : ℕ → Result → Text → HttpRun
stop attempt r body = record { result = r; response = body; attempts = suc attempt; waits = [] }

abbrev add_wait : ℕ → HttpRun → HttpRun
add_wait wait run = record {
  result = run.result;
  response = run.response;
  attempts = run.attempts;
  waits = wait ∷ run.waits;
}

-- An answer that is neither 200 nor a refusal, where no further attempt is made.
give_up : ℕ → Result
unfolding http_error
give_up status =
    if nat_beq status 429 then failure_retry (msg "HTTP Error: 429") rate_limited else record {
      success = false;
      message = http_error status;
      code = network;
      retryable = transient status;
    }

-- Behind the loop; `last` is `lastResponseCode`, 0 if no answer came.
exhausted : ℕ → Text → Result
unfolding http_error
exhausted last error =
    failure_retry (if nat_beq last 0 then msg "cURL Error: " ++ error else http_error last) network

-- The body of the loop up to the pause; `behind` is what comes after.
attempt_round : Bool → ℕ → ℕ → Transfer → (ℕ → Text → Text → HttpRun) → HttpRun
unfolding give_up
attempt_round is_last attempt last (aborted body) behind = stop attempt user_cancelled body
attempt_round is_last attempt last (answered status body) behind =
    if nat_beq status 200
    then stop attempt ok body
    else if nat_beq status 401 || nat_beq status 403
    then stop attempt (failure (http_error status) unauthorized) body
    else if not (transient status) || is_last
    then stop attempt (give_up status) body
    else behind status [] body
attempt_round is_last attempt last (broken error body) behind = behind last error body

module _ (perform : ℕ → Transfer) (cancel_seen : ℕ → Bool) where
  -- `left` attempts are left behind this one.
  attempt_loop : ℕ → ℕ → ℕ → HttpRun
  attempt_loop zero attempt last =
      attempt_round true attempt last (perform attempt)
        λ last' error body. stop attempt (exhausted last' error) body
  attempt_loop (suc left) attempt last =
      attempt_round false attempt last (perform attempt) λ last' error body.
        let rest = attempt_loop left (suc attempt) last' in
        add_wait (backoff attempt)
          (if cancel_seen attempt then stop attempt user_cancelled body else rest)

  -- `retries` is `maxRetries`.
  unfoldable pub make_http_request : ℕ → HttpRun
  unfolding attempt_loop attempt_round exhausted
  make_http_request retries = attempt_loop (max retries 1 - 1) 0 0
