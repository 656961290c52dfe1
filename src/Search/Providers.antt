-- ===== src/Search/Providers.antt =====
-- Search providers of src/app/SearchEngine.cpp: registering, choosing and configuring them, and the
-- checks of the configuration. A provider's code is an argument.
pub mod Selection
pub mod Torznab
use hypertube.Common.{
  ℕ, ◌+◌, ◌≤◌, Bool, true, false, not, ◌&&◌, ◌||◌, List, [], ◌∷◌, ◌++◌, map, Option, none, some,
  Text, codes, msg, ltb, leb, ◌==◌, text_eq, if◌then◌else◌, length, is_empty, is_some, Assoc,
  lookup, insert, starts_with, find, get_or_else, Result, ok, failure, invalid_input, not_found,
}

unfoldable pub builtin : Text
builtin = codes "torrents-csv"

-- `P` is the type of the callbacks, and `providers` a map from identifiers to them.
pub record Providers (P : Type 0) : Type 0 where
  pub providers : Assoc Text P
  pub active_provider : Text

module _ {P : Type 0} where
  -- `none` is an empty callback. A failure leaves the state as it was.
  unfoldable pub register_search_provider : Text → Option P → Providers P → Result × Providers P
  register_search_provider id none s =
      (failure (msg "Search provider id and callback are required") invalid_input, s)
  register_search_provider id (some provider) s =
      if is_empty id
      then (failure (msg "Search provider id and callback are required") invalid_input, s)
      else (ok, record s { providers = insert id provider s.providers })

  -- The second part says whether the cache is cleared.
  unfoldable pub set_active_search_provider : Text → Providers P → Result × Providers P × Bool
  unfolding builtin
  set_active_search_provider id s =
      if not (id == builtin) && not (is_some (lookup id s.providers))
      then (failure (msg "Unknown search provider: " ++ id) not_found, s, false)
      else (ok, record s { active_provider = id }, true)

  unfoldable pub get_search_providers : Providers P → List Text
  unfolding builtin
  get_search_providers s = builtin ∷ map (λ entry. entry.0) s.providers

-- `validateTorznabConfig`
unfoldable pub validate_torznab_config : Text → Result
unfolding starts_with find
validate_torznab_config url =
    if not (starts_with (codes "http://") url) && not (starts_with (codes "https://") url)
    then failure (msg "Torznab URL must use http:// or https://") invalid_input
    else if leb (length url) (get_or_else 0 (find (codes "://") url) + 3)
    then failure (msg "Torznab URL must include a host") invalid_input
    else ok

-- `validateProxyConfig`
unfoldable pub validate_proxy_config : Bool → Text → Text → ℕ → Result
validate_proxy_config enabled type host port =
    if enabled && is_empty host
    then failure (msg "Proxy host cannot be empty") invalid_input
    else if enabled && (ltb port 1 || ltb 65535 port)
    then failure (msg "Proxy port must be between 1 and 65535") invalid_input
    else if not (type == codes "socks5") && not (type == codes "http")
    then failure (msg "Proxy type must be socks5 or http") invalid_input
    else ok
