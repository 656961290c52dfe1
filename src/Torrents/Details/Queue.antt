-- ===== src/Torrents/Details/Queue.antt =====
-- The queue of detail requests, in every order of the calls and of the thread's steps.
use hypertube.Common.{
  ℕ, ◌≡◌, refl, sym, ◌∙◌, false, not, ◌||◌, List, [], ◌∷◌, ◌++◌, Option, arith, if◌then◌else◌,
  if_rule, if_cases, elem, keep, Distinct, Eq, ◌==◌,
}
use hypertube.Torrents.Details.{
  DetailRequest, request_eq, same_request_iff, Details, refreshed_lately, request_details_refresh,
  take_at, take_request, publish,
}

module _ {A : Type 0} ⦃e : Eq A⦄ where
  elem-append : (a b : A) (xs : List A) → elem a (xs ++ b ∷ []) ≡ (elem a xs || (b == a))
  elem-append a b [] = ground arith
  elem-append a b (x ∷ xs) = ground (arith, elem-append a b xs)

  append-Distinct :
      (a : A) (xs : List A) → elem a xs ≡ false → Distinct xs → Distinct (xs ++ a ∷ [])
  append-Distinct a [] new d = (refl, tt)
  append-Distinct a (x ∷ xs) new (first, d) = (
    ground (arith, elem-append x a xs, e.beq_iff x a, e.beq_iff a x),
    append-Distinct a xs (ground arith) d,
  )

  elem-keep :
      (a b : A) (xs : List A)
      → elem b (keep (λ p. not (p == a)) xs) ≡ (if a == b then false else elem b xs)
  elem-keep a b [] = ground arith
  elem-keep a b (x ∷ xs) =
      ground (arith, elem-keep a b xs, e.beq_iff x a, e.beq_iff x b, e.beq_iff a b)

-- What happens: a page asks, the thread takes a request, the thread publishes.
pub data DetailEvent (H X : Type 0) : Type 0 where
  asked : ℕ → DetailRequest H → DetailEvent H X
  taken : DetailEvent H X
  published : DetailRequest H → Option X → ℕ → DetailEvent H X

module _ {H X : Type 0} ⦃k : Eq H⦄ where
  unfoldable pub detail_step : Details H X → DetailEvent H X → Details H X
  detail_step s (asked now q) = request_details_refresh now q s
  detail_step s taken = (take_request s).1
  detail_step s (published q snapshot now) = publish q snapshot now s

  unfoldable pub detail_run : Details H X → List (DetailEvent H X) → Details H X
  detail_run s [] = s
  detail_run s (e ∷ es) = detail_run (detail_step s e) es

  -- The pending set is the set of the queued requests, and none is queued twice.
  abbrev pub IsQueued : Details H X → Type 0
  IsQueued s =
      ((q : DetailRequest H) → elem q s.pending_detail_requests ≡ elem q s.detail_requests)
      × Distinct s.detail_requests

  request-IsQueued :
      (now : ℕ) (q : DetailRequest H) (s : Details H X)
      → IsQueued s
      → IsQueued (request_details_refresh now q s)
  unfolding request_details_refresh
  request-IsQueued now q s v = if_rule IsQueued (refreshed_lately now q s) _ _ v (
      if_cases IsQueued (elem q s.pending_detail_requests) _ _ (λ _. v)
        λ new. (
          λ p. ground (arith, v.0 p, elem-append p q s.detail_requests),
          append-Distinct q s.detail_requests (sym (v.0 q) ∙ new) v.1,
        ))

  take-IsQueued :
      (queue : List (DetailRequest H)) (s : Details H X)
      → s.detail_requests ≡ queue
      → ((q : DetailRequest H) → elem q s.pending_detail_requests ≡ elem q queue) × Distinct queue
      → IsQueued s
      → IsQueued (take_at queue s).1
  unfolding take_at
  take-IsQueued [] s e v u = u
  take-IsQueued (q ∷ rest) s e v u = (
    λ p. ground (arith, v.0 p, v.1, elem-keep q p s.pending_detail_requests, same_request_iff q p),
    v.1.1,
  )

  -- Where the pending set is that of the queued requests and none is queued twice, it is so after any
  -- calls and steps of the thread.
  pub detail_run-IsQueued :
      (s : Details H X) (es : List (DetailEvent H X)) → IsQueued s → IsQueued (detail_run s es)
  unfolding detail_run detail_step
  detail_run-IsQueued s [] v = v
  detail_run-IsQueued s (asked now q ∷ es) v =
      detail_run-IsQueued (request_details_refresh now q s) es (request-IsQueued now q s v)
  detail_run-IsQueued s (taken ∷ es) v =
      detail_run-IsQueued (take_request s).1 es
        (unfold take_request in take-IsQueued s.detail_requests s refl v v)
  detail_run-IsQueued s (published q snapshot now ∷ es) v =
      detail_run-IsQueued (publish q snapshot now s) es (unfold publish in v)
