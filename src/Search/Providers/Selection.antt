-- ===== src/Search/Providers/Selection.antt =====
-- Which provider can be active, and which configurations are accepted.
use hypertube.Common.{
  ℕ, ◌≤◌, ◌<◌, ◌^◌, ◌≡◌, ◌↔◌, ◌⊎◌, ◌≢◌, Bool, true, false, ◌||◌, [], ◌∷◌, Option, none, some, Text,
  codes, ◌==◌, text_eq, text_beq_iff, is_empty, is_some, arith, lookup, lookup-insert,
}
use hypertube.Search.Providers.{
  Providers, builtin, register_search_provider, set_active_search_provider, validate_proxy_config,
}

module _ {P : Type 0} where
  -- The active provider is the built-in one or a registered one.
  abbrev pub IsSelectable : Providers P → Type 0
  IsSelectable s =
      (s.active_provider == builtin) || is_some (lookup s.active_provider s.providers) ≡ true

  -- After a registration the active provider is still the built-in one or a registered one.
  register_search_provider-IsSelectable :
      (id : Text) (p : Option P) (s : Providers P)
      → IsSelectable s
      → IsSelectable (register_search_provider id p s).1
  unfolding register_search_provider
  register_search_provider-IsSelectable id none s h = h
  register_search_provider-IsSelectable id (some p) s h =
      ground (arith, lookup-insert id s.active_provider p s.providers)

  -- After a choice, also one that is refused, the active provider is still the built-in one or a
  -- registered one.
  set_active_search_provider-IsSelectable :
      (id : Text) (s : Providers P)
      → IsSelectable s
      → IsSelectable (set_active_search_provider id s).1
  unfolding set_active_search_provider
  set_active_search_provider-IsSelectable id s h = ground arith

  -- A provider that was registered under a name that is not empty can be chosen: the choice succeeds,
  -- makes it the active one, clears the cache, and leaves it registered.
  pub set_active-register :
      (id : Text) (p : P) (s : Providers P)
      → is_empty id ≡ false
      → let t = (register_search_provider id (some p) s).1 in
        ((set_active_search_provider id t).0.success ≡ true)
        × ((set_active_search_provider id t).1.active_provider ≡ id)
        × ((set_active_search_provider id t).2 ≡ true)
        × (lookup id (set_active_search_provider id t).1.providers ≡ some p)
  unfolding register_search_provider set_active_search_provider
  set_active-register id p s h =
      ground (arith, lookup-insert id id p s.providers, text_beq_iff id id)

-- What `validateProxyConfig` accepts: a known type and, if the proxy is used, a host and a port of
-- 16 bits that is not 0.
abbrev pub IsProxy : Bool → Text → Text → ℕ → Type 0
IsProxy enabled type host port =
    ((type ≡ codes "socks5") ⊎ (type ≡ codes "http"))
    × ((enabled ≡ false) ⊎ ((host ≢ []) × (1 ≤ port) × (port < 2 ^ 16)))

-- A configuration passes exactly if its type is known and, where the proxy is enabled, its host is
-- not empty and its port is from 1 to 65535.
pub validate_proxy_config_iff :
    (enabled : Bool) (type host : Text) (port : ℕ)
    → ((validate_proxy_config enabled type host port).success ≡ true)
      ↔ IsProxy enabled type host port
unfolding validate_proxy_config
validate_proxy_config_iff enabled type [] port =
    ground (arith, text_beq_iff type (codes "socks5"), text_beq_iff type (codes "http"))
validate_proxy_config_iff enabled type (c ∷ host) port =
    ground (arith, text_beq_iff type (codes "socks5"), text_beq_iff type (codes "http"))
