-- ===== src/Search/Settings.antt =====
-- The settings of the search in src/app/SearchEngine.cpp: `setApiUrl`, `setTimeout`,
-- `setMaxRetries`, `setProxyConfig`, and `buildSearchUrl`, which reads them. A negative number of
-- seconds or of retries counts as 0 does.
use hypertube.Common.{
  ℕ, Bool, true, false, not, ◌&&◌, ◌++◌, Text, codes, to_string, max, ltb, nat_beq, if◌then◌else◌,
  if_cases, is_empty, arith, Result, ok,
}
use hypertube.Search.Types.{SearchQuery}
use hypertube.Search.Providers.{validate_proxy_config}
use hypertube.Search.Providers.Selection.{IsProxy, validate_proxy_config_iff}
use hypertube.Encoding.Percent.{url_encode}

pub record SearchSettings : Type 0 where
  pub api_url : Text
  pub timeout_seconds : ℕ
  pub max_retries : ℕ
  pub proxy_enabled : Bool
  pub proxy_type : Text
  pub proxy_host : Text
  pub proxy_port : ℕ
  pub proxy_username : Text
  pub proxy_password : Text

-- The second part says whether the cache is cleared.
unfoldable pub set_api_url : Text → SearchSettings → SearchSettings × Bool
set_api_url url s = (record s { api_url = url }, true)

unfoldable pub set_timeout : ℕ → SearchSettings → SearchSettings
set_timeout seconds s = record s { timeout_seconds = max seconds 1 }

unfoldable pub set_max_retries : ℕ → SearchSettings → SearchSettings
set_max_retries retries s = record s { max_retries = max retries 1 }

-- The settings of a proxy as they are passed.
pub record ProxyConfig : Type 0 where
  pub enabled : Bool
  pub type : Text
  pub host : Text
  pub port : ℕ
  pub username : Text
  pub password : Text

-- The last part says whether the cache is cleared.
unfoldable pub set_proxy_config : ProxyConfig → SearchSettings → Result × SearchSettings × Bool
set_proxy_config c s =
    let validation = validate_proxy_config c.enabled c.type c.host c.port in
    if not validation.success then (validation, s, false) else (
      ok,
      record s {
        proxy_enabled = c.enabled;
        proxy_type = c.type;
        proxy_host = c.host;
        proxy_port = c.port;
        proxy_username = c.username;
        proxy_password = c.password;
      },
      true,
    )

unfoldable pub build_search_url : SearchQuery → SearchSettings → Text
build_search_url q s =
    let base = s.api_url ++ (codes "?q=" ++ url_encode q.query) in
    let sized =
      if ltb 0 q.max_results && not (nat_beq q.max_results 50)
      then base ++ (codes "&size=" ++ to_string q.max_results)
      else base in
    if not (is_empty q.next_token)
    then sized ++ (codes "&after=" ++ url_encode q.next_token)
    else sized

abbrev HasProxy : SearchSettings → Type 0
HasProxy s = IsProxy s.proxy_enabled s.proxy_type s.proxy_host s.proxy_port

-- Settings with a proxy that passes the validation have such a proxy after a change, also one that is
-- refused.
set_proxy_config-HasProxy :
    (c : ProxyConfig) (s : SearchSettings) → HasProxy s → HasProxy (set_proxy_config c s).1
unfolding set_proxy_config
set_proxy_config-HasProxy c s v =
    if_cases {A = Result × SearchSettings × Bool} (λ r. HasProxy r.1)
      (not (validate_proxy_config c.enabled c.type c.host c.port).success) _ _ (λ refused. v)
      (λ passed. (validate_proxy_config_iff c.enabled c.type c.host c.port).0 (ground arith))
