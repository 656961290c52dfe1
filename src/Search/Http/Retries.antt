-- ===== src/Search/Http/Retries.antt =====
-- How often a request is attempted, and which answer decides it.
use hypertube.Common.{
  ℕ, zero, suc, ◌+◌, ◌-◌, ◌≤◌, ◌<◌, ◌≡◌, refl, sym, ap, ◌∙◌, inl, inr, max, Bool, true, false, not,
  ◌||◌, [], arith, Text, length, Result, ok, failure, unauthorized, network, nat_beq, nat_beq_iff,
  subst, if◌then◌else◌, Bool-cases, if_rule,
}
use mathlib.Core.Bool.{false≢true}
use hypertube.Search.Http.{
  Transfer, aborted, answered, broken, HttpRun, attempt_loop, attempt_round, make_http_request,
  transient, user_cancelled, stop, http_error, exhausted, give_up,
}

round_rule {ℓ} :
    (P : HttpRun → Type ℓ) (is_last : Bool) (attempt last : ℕ) (t : Transfer)
    (behind : ℕ → Text → Text → HttpRun)
    → ((r : Result) (body : Text) → P (stop attempt r body))
    → ((l : ℕ) (e b : Text) → P (behind l e b))
    → P (attempt_round is_last attempt last t behind)
unfolding attempt_round
round_rule P is_last attempt last (aborted body) behind s b = s _ _
round_rule P is_last attempt last (broken error body) behind s b = b last error body
round_rule P is_last attempt last (answered status body) behind s b =
    if_rule P (nat_beq status 200) (stop attempt ok body) _ (s _ _) (
      if_rule P (nat_beq status 401 || nat_beq status 403)
        (stop attempt (failure (http_error status) unauthorized) body) _ (s _ _)
        (if_rule P (not (transient status) || is_last) (stop attempt (give_up status) body)
          (behind status [] body) (s _ _) (b status [] body)))

-- Whether an attempt settles nothing.
abbrev retried : Transfer → Bool
retried (aborted body) = false
retried (answered status body) = transient status
retried (broken error body) = true

-- What an attempt that settles the request says.
abbrev verdict : Transfer → Result
verdict (aborted body) = user_cancelled
verdict (answered status body) =
    if nat_beq status 200
    then ok
    else if nat_beq status 401 || nat_beq status 403
    then failure (http_error status) unauthorized
    else failure (http_error status) network
verdict (broken error body) = user_cancelled

abbrev body_of : Transfer → Text
body_of (aborted body) = body
body_of (answered status body) = body
body_of (broken error body) = body

round_decides :
    (is_last : Bool) (attempt last : ℕ) (t : Transfer) (behind : ℕ → Text → Text → HttpRun)
    → retried t ≡ false
    → attempt_round is_last attempt last t behind ≡ stop attempt (verdict t) (body_of t)
unfolding attempt_round give_up
round_decides is_last attempt last (aborted body) behind e = refl
round_decides is_last attempt last (answered status body) behind e = ground arith
round_decides is_last attempt last (broken error body) behind e = cc

round_passes :
    (attempt last status : ℕ) (body : Text) (behind : ℕ → Text → Text → HttpRun)
    → transient status ≡ true
    → attempt_round false attempt last (answered status body) behind ≡ behind status [] body
unfolding attempt_round
round_passes attempt last status body behind e = ground arith

retries_rule {ℓ} :
    (P : HttpRun → Type ℓ) (attempt last : ℕ) (t : Transfer) (behind : ℕ → Text → Text → HttpRun)
    → retried t ≡ true
    → ((l : ℕ) (e b : Text) → P (behind l e b))
    → P (attempt_round false attempt last t behind)
retries_rule P attempt last (aborted body) behind e b = absurd (false≢true e)
retries_rule P attempt last (answered status body) behind e b =
    subst P (sym (round_passes attempt last status body behind e)) (b status [] body)
retries_rule P attempt last (broken error body) behind e b =
    unfold attempt_round in b last error body

give_up_fails : (status : ℕ) → (give_up status).success ≡ false
unfolding give_up
give_up_fails status = ground arith

module _ (perform : ℕ → Transfer) (cancel_seen : ℕ → Bool) where
  abbrev InBounds : ℕ → ℕ → HttpRun → Type 0
  InBounds left attempt run =
      (attempt < run.attempts) × (run.attempts ≤ suc (attempt + left)) × (length run.waits ≤ left)

  attempt_loop-InBounds :
      (left attempt last : ℕ)
      → InBounds left attempt (attempt_loop perform cancel_seen left attempt last)
  unfolding attempt_loop
  attempt_loop-InBounds zero attempt last =
      round_rule (InBounds zero attempt) true attempt last (perform attempt) _ (λ r b. omega arith)
        (λ l e b. omega arith)
  attempt_loop-InBounds (suc left) attempt last =
      round_rule (InBounds (suc left) attempt) false attempt last (perform attempt) _
        (λ r b. omega arith) (λ l e b. ground (arith, attempt_loop-InBounds left (suc attempt) l))

  -- At least one attempt is made, and at most `retries` attempts, or one where `retries` is 0; there
  -- are fewer pauses than that.
  pub make_http_request_bounds :
      (retries : ℕ)
      → let run = make_http_request perform cancel_seen retries in
        (1 ≤ run.attempts) × (run.attempts ≤ max retries 1) × (length run.waits ≤ max retries 1 - 1)
  unfolding make_http_request
  make_http_request_bounds retries = omega (arith, attempt_loop-InBounds (max retries 1 - 1) 0 0)

  -- `k` attempts from `attempt` on settle nothing, and nobody cancels behind them.
  abbrev pub AllRetried : ℕ → ℕ → Type 0
  AllRetried zero attempt = Unit
  AllRetried (suc k) attempt =
      (retried (perform attempt) ≡ true)
      × (cancel_seen attempt ≡ false)
      × AllRetried k (suc attempt)

  abbrev pub Settles : ℕ → HttpRun → Type 0
  Settles n run =
      (run.attempts ≡ suc n)
      × (run.result ≡ verdict (perform n))
      × (run.response ≡ body_of (perform n))

  first-Settles :
      (is_last : Bool) (attempt last n : ℕ) (behind : ℕ → Text → Text → HttpRun)
      → attempt ≡ n
      → retried (perform n) ≡ false
      → Settles n (attempt_round is_last attempt last (perform attempt) behind)
  first-Settles is_last attempt last n behind e d =
      subst (λ m. Settles n (attempt_round is_last m last (perform m) behind)) (sym e)
        (rw (round_decides is_last n last (perform n) behind d) (refl, refl, refl))

  attempt_loop-Settles :
      (k left attempt last n : ℕ)
      → k ≤ left
      → AllRetried k attempt
      → n ≡ attempt + k
      → retried (perform n) ≡ false
      → Settles n (attempt_loop perform cancel_seen left attempt last)
  unfolding attempt_loop
  attempt_loop-Settles zero zero attempt last n h a e d =
      first-Settles true attempt last n _ (omega arith) d
  attempt_loop-Settles zero (suc left) attempt last n h a e d =
      first-Settles false attempt last n _ (omega arith) d
  attempt_loop-Settles (suc k) zero attempt last n h a e d = absurd (omega arith)
  attempt_loop-Settles (suc k) (suc left) attempt last n h (r, c, a) e d =
      retries_rule (Settles n) attempt last (perform attempt) _ r λ l err b.
        rw c (attempt_loop-Settles k left (suc attempt) l n (omega arith) a (omega arith) d)

  -- The first attempt that settles the request decides it, if the retries reach it and nobody
  -- cancels before: its answer is the result, and its body the response.
  pub make_http_request-Settles :
      (retries k : ℕ)
      → k < max retries 1
      → AllRetried k 0
      → retried (perform k) ≡ false
      → Settles k (make_http_request perform cancel_seen retries)
  unfolding make_http_request
  make_http_request-Settles retries k h a d =
      attempt_loop-Settles k (max retries 1 - 1) 0 0 k (omega arith) a (omega arith) d

  -- If the run is a success, its last attempt was answered with 200 and its body.
  abbrev Succeeded : HttpRun → Type 0
  Succeeded run =
      run.result.success ≡ true
      → (n : ℕ) × (run.attempts ≡ suc n) × (perform n ≡ answered 200 run.response)

  answered-Succeeded :
      (is_last : Bool) (attempt status : ℕ) (body : Text) (behind : ℕ → Text → Text → HttpRun)
      → perform attempt ≡ answered status body
      → Succeeded (behind status [] body)
      → Succeeded (attempt_round is_last attempt 0 (answered status body) behind)
  unfolding attempt_round give_up
  answered-Succeeded is_last attempt status body behind e rest =
      elim (Bool-cases (nat_beq status 200)) [
        | inl hit ↦
            rw hit
              λ h. (attempt, refl, e ∙ ap (λ s. answered s body) ((nat_beq_iff status 200).0 hit))
        | inr other ↦ rw other (
            if_rule Succeeded (nat_beq status 401 || nat_beq status 403)
              (stop attempt (failure (http_error status) unauthorized) body) _ (λ h. cc)
              (if_rule Succeeded (not (transient status) || is_last)
                (stop attempt (give_up status) body) (behind status [] body)
                (λ h. cc (give_up_fails status)) rest))
      ]

  round-Succeeded :
      (is_last : Bool) (attempt last : ℕ) (t : Transfer) (behind : ℕ → Text → Text → HttpRun)
      → perform attempt ≡ t
      → ((l : ℕ) (e b : Text) → Succeeded (behind l e b))
      → Succeeded (attempt_round is_last attempt last t behind)
  unfolding attempt_round give_up
  round-Succeeded is_last attempt last (aborted body) behind e rest = λ h. cc
  round-Succeeded is_last attempt last (broken error body) behind e rest = rest last error body
  round-Succeeded is_last attempt last (answered status body) behind e rest =
      answered-Succeeded is_last attempt status body behind e (rest status [] body)

  attempt_loop-Succeeded :
      (left attempt last : ℕ) → Succeeded (attempt_loop perform cancel_seen left attempt last)
  unfolding attempt_loop exhausted
  attempt_loop-Succeeded zero attempt last =
      round-Succeeded true attempt last (perform attempt) _ refl (λ l e b h. cc)
  attempt_loop-Succeeded (suc left) attempt last =
      round-Succeeded false attempt last (perform attempt) _ refl λ l e b.
        elim (Bool-cases (cancel_seen attempt)) [
          | inl stopped ↦ rw stopped (λ h. cc)
          | inr on ↦ rw on (attempt_loop-Succeeded left (suc attempt) l)
        ]

  -- A request succeeds only by an attempt that was answered with 200; it is the last one made, and
  -- its body is the response.
  pub make_http_request-success :
      (retries : ℕ)
      → (make_http_request perform cancel_seen retries).result.success ≡ true
      → (n : ℕ) × ((make_http_request perform cancel_seen retries).attempts ≡ suc n)
        × (perform n ≡ answered 200 (make_http_request perform cancel_seen retries).response)
  unfolding make_http_request
  make_http_request-success retries = attempt_loop-Succeeded (max retries 1 - 1) 0 0
