-- ===== src/Search/Cache.antt =====
-- `performSearch` and `clearSearchCache` of src/app/SearchEngine.cpp: the cache of responses, the
-- active provider, and the fallback to the built-in service.
pub mod Hits
pub mod Keys
use hypertube.Common.{
  ℕ, ◌+◌, ◌*◌, ◌≤◌, ◌<◌, Bool, true, false, not, ◌&&◌, ◌||◌, List, [], ◌∷◌, ◌++◌, Option, none,
  some, Text, codes, msg, to_string, ltb, leb, ◌==◌, text_eq, if◌then◌else◌, length, is_empty,
  Assoc, lookup, insert, remove, Result, ResultCode, ok, failure, internal, cancelled,
}
use hypertube.Search.Types.{SearchQuery, SearchResponse, no_response}
use hypertube.Search.Providers.{Providers}

-- What a call of a provider or of a parser comes to: it returns a result and a response, or it
-- throws, with the text of a `std::exception` or with another value.
pub data Call : Type 0 where
  returned : Result → SearchResponse → Call
  threw : Option Text → Call

-- `SearchProvider`: the query, and whether the search is cancelled.
abbrev pub Provider : Type 0
Provider = SearchQuery → SearchResponse → Call

pub record CachedSearch : Type 0 where
  pub response : SearchResponse
  pub expires_at : ℕ

abbrev pub cache_limit : ℕ
cache_limit = 100

-- Five minutes in milliseconds.
abbrev pub cache_time : ℕ
cache_time = 5 * 60 * 1000

-- What the rest of the engine and the world answer in one search: the clock at the look-up and at
-- the store, the request to the built-in service, whether the search is cancelled behind it, and
-- the parser.
pub record World : Type 0 where
  pub now : ℕ
  pub later : ℕ
  pub request : SearchQuery → Result × Text
  pub cancel_requested : Bool
  pub parse : Text → SearchResponse → Call

abbrev Cache : Type 0
Cache = Assoc Text CachedSearch

unfoldable pub cache_key : Text → SearchQuery → Text
cache_key provider_id q =
    provider_id
    ++ (b'\n' ∷ (q.query ++ (b'\n' ∷ (to_string q.max_results ++ (b'\n' ∷ q.next_token)))))

-- What a search returns: the result, the response and the cache.
pub record Searched : Type 0 where
  pub result : Result
  pub response : SearchResponse
  pub cache : Cache

abbrev pub entry : SearchResponse → ℕ → CachedSearch
entry response now = record { response = response; expires_at = now + cache_time }

unfoldable pub store : Text → SearchResponse → ℕ → Cache → Cache
store key response now cache =
    insert key (entry response now) (if leb cache_limit (length cache) then [] else cache)

-- The two `catch` clauses.
caught : Option Text → SearchResponse → Cache → Searched
caught (some what) response cache = record {
  result = failure (msg "Search failed: " ++ what) internal;
  response = response;
  cache = cache;
}
caught none response cache = record {
  result = failure (msg "Search failed with an unknown error") internal;
  response = response;
  cache = cache;
}

-- A result of the provider or of the parser; a success is stored.
keep_success : World → Text → Result → SearchResponse → Cache → Searched
unfolding store
keep_success w key result response cache = record {
  result = result;
  response = response;
  cache = if result.success then store key response w.later cache else cache;
}

-- Behind the parser.
after_parse : World → Text → Call → SearchResponse → Cache → Searched
unfolding keep_success caught
after_parse w key (threw what) response cache = caught what response cache
after_parse w key (returned result parsed) response cache = keep_success w key result parsed cache

-- The built-in service.
ask_builtin : World → Text → SearchQuery → SearchResponse → Cache → Searched
unfolding after_parse
ask_builtin w key q response cache =
    let http = w.request q in
    if not http.0.success
    then record { result = http.0; response = response; cache = cache }
    else if w.cancel_requested
    then record {
      result = failure (msg "Search cancelled by user") cancelled;
      response = response;
      cache = cache;
    }
    else after_parse w key (w.parse http.1 response) response cache

is_cancelled : ResultCode → Bool
is_cancelled cancelled = true
is_cancelled _ = false

-- Behind the active provider: a failure on a first page falls back to the built-in service.
after_provider : World → Text → Call → SearchQuery → SearchResponse → Cache → Searched
unfolding ask_builtin keep_success caught is_cancelled
after_provider w key (threw what) q response cache = caught what response cache
after_provider w key (returned result answer) q response cache =
    if result.success
    then keep_success w key result answer cache
    else if is_cancelled result.code || not (is_empty q.next_token)
    then record { result = result; response = answer; cache = cache }
    else ask_builtin w key q no_response cache

pub ask_provider : World → Text → Option Provider → SearchQuery → SearchResponse → Cache → Searched
unfolding ask_builtin after_provider
ask_provider w key none q response cache = ask_builtin w key q response cache
ask_provider w key (some provider) q response cache =
    after_provider w key (provider q response) q response cache

-- The cache is asked first; an entry that has run out is erased.
looked_up :
    World
    → Text
    → Option CachedSearch
    → Option Provider
    → SearchQuery
    → SearchResponse
    → Cache
    → Searched
unfolding ask_provider
looked_up w key none provider q response cache = ask_provider w key provider q response cache
looked_up w key (some hit) provider q response cache =
    if ltb w.now hit.expires_at
    then record { result = ok; response = hit.response; cache = cache }
    else ask_provider w key provider q response (remove key cache)

unfoldable pub perform_search :
    World → Providers Provider → SearchQuery → SearchResponse → Cache → Searched
unfolding looked_up cache_key
perform_search w s q response cache =
    let key = cache_key s.active_provider q in
    looked_up w key (lookup key cache) (lookup s.active_provider s.providers) q response cache
