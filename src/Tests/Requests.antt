-- ===== src/Tests/Requests.antt =====
-- Runs of the history, the favorites, the requests, the providers and the cache.
use hypertube.Common.{
  ℕ, zero, suc, ◌≤◌, ◌<◌, ◌≡◌, refl, ◌⊎◌, Bool, true, false, List, [], ◌∷◌, none, some, arith, Text,
  codes, text_eq, length, take, Distinct, lookup, ok, Lacks, ltb, ◌+◌, remove, Result, failure,
  unavailable, if◌then◌else◌,
}
use hypertube.Search.Types.{TorrentSearchResult, SearchQuery, no_response}
use hypertube.Search.History.{
  run_history, recent, history_limit, run_history-recent, recent-Distinct,
}
use hypertube.Search.Favorites.{
  Favorites, IsSynced, adds, removes, favorite_step, favorite_run, remove_from_favorites,
  favorite_run-IsSynced,
}
use hypertube.Search.Http.{
  Transfer, answered, HttpRun, receive, make_http_request, max_response_size,
}
use hypertube.Search.Http.Limit.{joined, receive_limit}
use hypertube.Search.Http.Retries.{make_http_request-Settles, make_http_request-success, Settles}
use hypertube.Search.Providers.{Providers, builtin, register_search_provider}
use hypertube.Search.Cache.{
  World, Provider, Searched, returned, perform_search, ask_provider, cache_key,
}
use hypertube.Search.Cache.Hits.{perform_search_again}
use hypertube.Search.Cache.Keys.{cache_key-injective}

abbrev searches : List Text
searches = codes "a" ∷ codes "b" ∷ [] ∷ codes "a" ∷ []

run_history-recent_example : run_history searches ≡ take history_limit (recent searches)
run_history-recent_example = run_history-recent searches

recent-Distinct_example : Distinct (recent searches)
recent-Distinct_example = recent-Distinct searches

abbrev torrent : TorrentSearchResult
torrent = record {
  name = codes "film";
  magnet_uri = codes "magnet:";
  info_hash = codes "ab";
  size_bytes = 700;
  seeders = 3;
  leechers = 1;
  date_uploaded = [];
  category = [];
  created_unix = 0;
  scraped_date = 0;
  completed = 0;
}

abbrev no_favorites : Favorites
no_favorites = record { favorites = []; favorite_hashes = []; favorites_revision = 1 }

favorite_run-IsSynced_example :
    IsSynced (favorite_run no_favorites (adds torrent ∷ removes (codes "cd") ∷ []))
favorite_run-IsSynced_example =
    favorite_run-IsSynced no_favorites (adds torrent ∷ removes (codes "cd") ∷ []) λ a. refl

remove_nothing : (favorite_step no_favorites (removes (codes "ab"))).favorites_revision ≡ 1
unfolding favorite_step remove_from_favorites
remove_nothing = refl

abbrev chunks : List Text
chunks = codes "{" ∷ codes "}" ∷ []

receive_limit_example :
    ((length (joined chunks) ≤ max_response_size) × (receive [] chunks ≡ some (joined chunks)))
    ⊎ ((max_response_size < length (joined chunks)) × (receive [] chunks ≡ none))
receive_limit_example = receive_limit chunks

-- The first attempt meets an overloaded server, the second is answered.
abbrev network_answer : ℕ → Transfer
network_answer zero = answered 503 []
network_answer (suc n) = answered 200 (codes "{}")

abbrev nobody_cancels : ℕ → Bool
nobody_cancels n = false

abbrev request_run : HttpRun
request_run = make_http_request network_answer nobody_cancels 3

make_http_request-Settles_example : Settles network_answer nobody_cancels 1 request_run
make_http_request-Settles_example =
    make_http_request-Settles network_answer nobody_cancels 3 1 (omega arith) (refl, refl, tt) refl

request_succeeds : request_run.result.success ≡ true
unfolding make_http_request
request_succeeds = refl

make_http_request-success_example :
    (n : ℕ) × (request_run.attempts ≡ suc n)
    × (network_answer n ≡ answered 200 request_run.response)
make_http_request-success_example =
    make_http_request-success network_answer nobody_cancels 3 request_succeeds

-- Providers that are told apart by a number.
abbrev builtin_only : Providers ℕ
builtin_only = record { providers = []; active_provider = builtin }

abbrev jackett_registered : Providers ℕ
jackett_registered = (register_search_provider (codes "jackett") (some 7) builtin_only).1

abbrev no_providers : Providers Provider
no_providers = record { providers = []; active_provider = builtin }

-- A service that is reached at once and answers with nothing.
abbrev quick_world : World
quick_world = record {
  now = 10;
  later = 12;
  request = λ q. (ok, []);
  cancel_requested = false;
  parse = λ body a. returned ok no_response;
}

abbrev film_query : SearchQuery
film_query = record { query = codes "film"; max_results = 0; next_token = [] }

abbrev invalid : Result
invalid = failure (codes "offline") unavailable

abbrev first_search : Searched
first_search = perform_search quick_world no_providers film_query no_response []

film_found : first_search.result.success ≡ true
unfolding perform_search lookup
film_found = refl

-- The same a minute later, with a service that does not answer.
abbrev later_world : World
later_world = record quick_world { now = 60012; later = 60014; request = λ q. (invalid, []) }

perform_search_again_example :
    perform_search later_world no_providers film_query no_response first_search.cache ≡ (
      if ltb 60012 (12 + 300000)
      then record { result = ok; response = first_search.response; cache = first_search.cache }
      else ask_provider later_world
          (cache_key builtin film_query)
          none
          film_query
          no_response
          (remove (cache_key builtin film_query) first_search.cache))
unfolding lookup
perform_search_again_example =
    perform_search_again quick_world later_world no_providers no_providers film_query no_response
      no_response [] tt film_found refl

no_break : Lacks b'\n' (codes "a")
no_break = (λ e. omega arith, tt)

abbrev letter_query : SearchQuery
letter_query = record { query = codes "a"; max_results = 0; next_token = codes "t" }

cache_key-injective_example : (codes "a" ≡ codes "a") × (letter_query ≡ letter_query)
cache_key-injective_example =
    cache_key-injective (codes "a") (codes "a") letter_query letter_query no_break no_break no_break
      no_break refl
