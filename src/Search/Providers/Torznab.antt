-- ===== src/Search/Providers/Torznab.antt =====
-- `configureTorznabProvider` of src/app/SearchEngine.cpp.
use hypertube.Common.{
  not, ◌&&◌, [], ◌∷◌, ◌++◌, some, Text, codes, ltb, find, is_some, is_empty, to_string,
  if◌then◌else◌, Result, ◌==◌, text_eq,
}
use hypertube.Search.Types.{SearchQuery}
use hypertube.Search.Providers.{Providers, register_search_provider, validate_torznab_config}
use hypertube.Encoding.Percent.{url_encode}

-- What the callback holds.
pub record TorznabProvider : Type 0 where
  pub endpoint : Text
  pub api_key : Text

-- The slashes at the end are taken off.
pub without_slashes : Text → Text
without_slashes [] = []
without_slashes (c ∷ cs) =
    let rest = without_slashes cs in if is_empty rest && codes "/" == (c ∷ []) then [] else c ∷ rest

unfoldable pub configure_torznab_provider :
    Text → Text → Providers TorznabProvider → Result × Providers TorznabProvider
unfolding without_slashes
configure_torznab_provider url api_key s =
    let validation = validate_torznab_config url in
    if not validation.success
    then (validation, s)
    else register_search_provider (codes "torznab")
        (some record { endpoint = without_slashes url; api_key = api_key }) s

-- The request that the callback makes for a query.
pub torznab_request_url : TorznabProvider → SearchQuery → Text
unfolding find
torznab_request_url p q =
    let start =
      p.endpoint ++ (if is_some (find (codes "?") p.endpoint) then codes "&" else codes "?") in
    let base = start ++ (codes "t=search&q=" ++ url_encode q.query) in
    let limited =
      if ltb 0 q.max_results then base ++ (codes "&limit=" ++ to_string q.max_results) else base in
    let paged =
      if not (is_empty q.next_token)
      then limited ++ (codes "&offset=" ++ url_encode q.next_token)
      else limited in
    if not (is_empty p.api_key) then paged ++ (codes "&apikey=" ++ url_encode p.api_key) else paged
