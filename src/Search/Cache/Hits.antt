-- ===== src/Search/Cache/Hits.antt =====
-- The cache stays small, and answers again with what a search has stored, for five minutes.
use hypertube.Common.{
  ℕ, ◌≤◌, ◌≡◌, refl, inl, inr, true, false, not, ◌||◌, [], Option, none, some, Text, ltb, leb,
  leb-false→lt, text_eq, if_rule, length, is_empty, lookup, remove, lookup-insert_self, ◌+◌,
  if◌then◌else◌, length-insert_le, if_cases, ltb→lt, sym, ◌∙◌, length-remove_le, Result, ok, arith,
  Bool-cases,
}
use mathlib.Core.Bool.{false≢true}
use hypertube.Search.Types.{SearchQuery, SearchResponse, no_response}
use hypertube.Search.Providers.{Providers}
use hypertube.Search.Cache.{
  Call, returned, threw, Provider, CachedSearch, cache_limit, World, Cache, cache_key, Searched,
  entry, after_parse, after_provider, store, keep_success, ask_builtin, ask_provider, looked_up,
  perform_search, caught, is_cancelled,
}

abbrev searched : Result → SearchResponse → Cache → Searched
searched r a c = record { result = r; response = a; cache = c }

-- A search ends in a failure that leaves the cache, or in a result that is kept.
module _ {ℓ} (P : Searched → Type ℓ) (w : World) (key : Text) (q : SearchQuery) (c : Cache)
    (failed : (r : Result) (a : SearchResponse) → r.success ≡ false → P (searched r a c))
    (kept : (r : Result) (a : SearchResponse) → P (keep_success w key r a c)) where
  caught_rule : (what : Option Text) (a : SearchResponse) → P (caught what a c)
  unfolding caught
  caught_rule none a = failed _ a refl
  caught_rule (some what) a = failed _ a refl

  parsed_rule : (call : Call) (a : SearchResponse) → P (after_parse w key call a c)
  unfolding after_parse
  parsed_rule (returned r b) a = kept r b
  parsed_rule (threw what) a = caught_rule what a

  ask_builtin_rule : (a : SearchResponse) → P (ask_builtin w key q a c)
  unfolding ask_builtin
  ask_builtin_rule a =
      if_cases P (not (w.request q).0.success) (searched (w.request q).0 a c) _
        (λ e. failed (w.request q).0 a (ground arith))
        λ _.
          if_rule P w.cancel_requested _ (after_parse w key (w.parse (w.request q).1 a) a c)
            (failed _ a refl) (parsed_rule (w.parse (w.request q).1 a) a)

  answered_rule : (call : Call) (a : SearchResponse) → P (after_provider w key call q a c)
  unfolding after_provider
  answered_rule (threw what) a = caught_rule what a
  answered_rule (returned r b) a =
      if_cases P r.success (keep_success w key r b c) _ (λ _. kept r b)
        λ bad.
          if_rule P (is_cancelled r.code || not (is_empty q.next_token)) (searched r b c)
            (ask_builtin w key q no_response c) (failed r b bad) (ask_builtin_rule no_response)

  ask_provider_rule :
      (provider : Option Provider) (a : SearchResponse) → P (ask_provider w key provider q a c)
  unfolding ask_provider
  ask_provider_rule none a = ask_builtin_rule a
  ask_provider_rule (some provider) a = answered_rule (provider q a) a

abbrev Small : Searched → Type 0
Small r = length r.cache ≤ cache_limit

store-Small :
    (key : Text) (r : SearchResponse) (now : ℕ) (c : Cache)
    → length c ≤ cache_limit
    → length (store key r now c) ≤ cache_limit
unfolding store
store-Small key r now c h = elim (Bool-cases (leb cache_limit (length c))) [
  | inl full ↦ rw full (omega (arith, length-insert_le {0, 0} key (entry r now) []))
  | inr room ↦ rw room (
      omega
        (arith, length-insert_le {0, 0} key (entry r now) c, leb-false→lt cache_limit (length c)))
]

keep_success-Small :
    (w : World) (key : Text) (r : Result) (a : SearchResponse) (c : Cache)
    → length c ≤ cache_limit
    → Small (keep_success w key r a c)
unfolding keep_success
keep_success-Small w key r a c h =
    if_rule (λ d. length d ≤ cache_limit) r.success _ c (store-Small key a w.later c h) h

looked_up-Small :
    (w : World) (key : Text) (hit : Option CachedSearch) (p : Option Provider) (q : SearchQuery)
    (a : SearchResponse) (c : Cache)
    → length c ≤ cache_limit
    → Small (looked_up w key hit p q a c)
unfolding looked_up
looked_up-Small w key none p q a c h =
    ask_provider_rule Small w key q c (λ r b e. h) (λ r b. keep_success-Small w key r b c h) p a
looked_up-Small w key (some hit) p q a c h =
    if_rule Small (ltb w.now hit.expires_at) _ (ask_provider w key p q a (remove key c)) h (
      ask_provider_rule Small w key q (remove key c) (λ r b e. removed)
        (λ r b. keep_success-Small w key r b (remove key c) removed) p a)
  where
    removed : length (remove key c) ≤ cache_limit
    removed = omega (arith, length-remove_le {0, 0} key c)

-- A cache of at most a hundred entries has at most a hundred after a search.
pub perform_search-Small :
    (w : World) (s : Providers Provider) (q : SearchQuery) (a : SearchResponse) (c : Cache)
    → length c ≤ cache_limit
    → length (perform_search w s q a c).cache ≤ cache_limit
unfolding perform_search
perform_search-Small w s q a c h =
    looked_up-Small w (cache_key s.active_provider q) (lookup (cache_key s.active_provider q) c)
      (lookup s.active_provider s.providers) q a c h

-- A success is in the cache, until its time runs out.
abbrev Stored : ℕ → Text → Searched → Type 0
Stored now key r = r.result.success ≡ true → lookup key r.cache ≡ some (entry r.response now)

keep_success-Stored :
    (w : World) (key : Text) (r : Result) (a : SearchResponse) (c : Cache)
    → Stored w.later key (keep_success w key r a c)
unfolding keep_success store
keep_success-Stored w key r a c good = rw good (lookup-insert_self key (entry a w.later) _)

asked-Stored :
    (w : World) (key : Text) (p : Option Provider) (q : SearchQuery) (a : SearchResponse)
    (c : Cache)
    → Stored w.later key (ask_provider w key p q a c)
asked-Stored w key p q a c =
    ask_provider_rule (Stored w.later key) w key q c
      (λ r b e good. absurd (false≢true (sym e ∙ good))) (λ r b. keep_success-Stored w key r b c) p
      a

-- The cache does not answer at the time.
abbrev pub IsMissed : ℕ → Option CachedSearch → Type 0
IsMissed now hit = elim hit [ none ↦ Unit | some old ↦ old.expires_at ≤ now ]

looked_up-Stored :
    (w : World) (key : Text) (hit : Option CachedSearch) (p : Option Provider) (q : SearchQuery)
    (a : SearchResponse) (c : Cache)
    → IsMissed w.now hit
    → Stored w.later key (looked_up w key hit p q a c)
unfolding looked_up
looked_up-Stored w key none p q a c h = asked-Stored w key p q a c
looked_up-Stored w key (some hit) p q a c h =
    if_cases (Stored w.later key) (ltb w.now hit.expires_at) (searched ok hit.response c) _
      (λ fresh. ground (arith, ltb→lt w.now hit.expires_at fresh))
      (λ _. asked-Stored w key p q a (remove key c))

-- A search that the cache did not answer, and that succeeded, is made again with the same active
-- provider. If less than five minutes, which are 300000 milliseconds, have passed since its response
-- was stored, the cache answers: a success with the same response and an unchanged cache, whatever the
-- providers and the network would answer. Otherwise the entry is dropped and the provider is asked.
pub perform_search_again :
    (w w' : World) (s s' : Providers Provider) (q : SearchQuery) (a a' : SearchResponse) (c : Cache)
    → IsMissed w.now (lookup (cache_key s.active_provider q) c)
    → (perform_search w s q a c).result.success ≡ true
    → s'.active_provider ≡ s.active_provider
    → let first = perform_search w s q a c in
      let key = cache_key s.active_provider q in
      perform_search w' s' q a' first.cache ≡ (
        if ltb w'.now (w.later + 300000)
        then record { result = ok; response = first.response; cache = first.cache }
        else ask_provider w' key
            (lookup s'.active_provider s'.providers)
            q
            a'
            (remove key first.cache))
unfolding perform_search looked_up
perform_search_again w w' s s' q a a' c missed good same =
    let stored =
      looked_up-Stored w (cache_key s.active_provider q) (lookup (cache_key s.active_provider q) c)
        (lookup s.active_provider s.providers) q a c missed good in
    rw (same, stored) refl
