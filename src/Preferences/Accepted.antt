-- ===== src/Preferences/Accepted.antt =====
-- Settings that `beginSave` accepts, when they are applied.
use hypertube.Common.{
  ℕ, ◌∷◌, ◌||◌, ◌≡◌, refl, ◌∙◌, Bool, true, false, not, Option, arith, Text, codes, text_beq,
  text_eq, is_empty, if_cases, if◌then◌else◌, Result, get_or_else, [], Bool-cases, inl, inr,
}
use mathlib.Core.Bool.{false≢true}
use hypertube.Config.Preferences.{PreferencesSettings}
use hypertube.Search.Providers.{
  Providers, validate_proxy_config, validate_torznab_config, register_search_provider,
  set_active_search_provider, builtin,
}
use hypertube.Search.Providers.Torznab.{TorznabProvider, configure_torznab_provider}
use hypertube.Search.Providers.Selection.{set_active-register}
use hypertube.Search.Settings.{SearchSettings, set_proxy_config}
use hypertube.Preferences.Runtime.{
  Runtime, to_port, apply_runtime, apply_provider, activate, apply_session,
}
use hypertube.Preferences.Controller.{validate_preferences}

-- What the checks of `beginSave` say of the settings with a type of proxy.
validate_preferences_parts :
    (p : PreferencesSettings)
    → is_empty p.proxy_type ≡ false
    → (validate_preferences p).success ≡ true
    → ((validate_proxy_config p.proxy_enabled p.proxy_type p.proxy_host
          (to_port p.proxy_port)).success
        ≡ true)
      × (p.torznab_enabled ≡ true → (validate_torznab_config p.torznab_url).success ≡ true)
unfolding validate_preferences
validate_preferences_parts p typed valid = (ground arith, λ enabled. ground arith)

configure_torznab-success :
    (url key : Text) (s : Providers TorznabProvider)
    → (validate_torznab_config url).success ≡ true
    → ((configure_torznab_provider url key s).0.success ≡ true)
      × ((set_active_search_provider
            (codes "torznab")
            (configure_torznab_provider url key s).1).0.success
          ≡ true)
unfolding configure_torznab_provider register_search_provider
configure_torznab-success url key s valid =
    if_cases {A = Result × Providers TorznabProvider}
      (λ t.
        (t.0.success ≡ true)
        × ((set_active_search_provider (codes "torznab") t.1).0.success ≡ true))
      (not (validate_torznab_config url).success) _ _ (λ h. absurd (false≢true (ground arith)))
      λ _. (refl, let (a, _, _, _) = set_active-register (codes "torznab") _ s refl in a)

apply_provider-success :
    (p : PreferencesSettings) (key : Option Text) (r : Runtime)
    → (p.torznab_enabled ≡ true → (validate_torznab_config p.torznab_url).success ≡ true)
    → (apply_provider p key r).0.success ≡ true
unfolding apply_provider activate set_active_search_provider builtin text_beq
apply_provider-success p key r valid =
    if_cases {A = Result × Runtime} (λ t. t.0.success ≡ true) (not p.torznab_enabled) _ _
      (λ _. refl)
      λ enabled.
        let (a, b) =
          configure_torznab-success p.torznab_url (get_or_else [] key) r.providers
            (valid (ground arith)) in
        ground arith

validate_empty_type :
    (enabled : Bool) (type host : Text) (port : ℕ)
    → is_empty type ≡ true
    → (validate_proxy_config enabled type host port).success ≡ false
unfolding validate_proxy_config text_beq
validate_empty_type enabled [] host port h = ground arith
validate_empty_type enabled (c ∷ type) host port h = absurd (false≢true h)

-- Settings that pass the checks of `beginSave` are applied without a failure exactly if their type of
-- proxy is not empty, whatever the credentials and the state that they are applied to.
pub apply_runtime-validate_preferences :
    (p : PreferencesSettings) (key : Option Text) (password : Text) (r : Runtime)
    → (validate_preferences p).success ≡ true
    → (apply_runtime p key password r).0.success ≡ not (is_empty p.proxy_type)
unfolding apply_runtime set_proxy_config
apply_runtime-validate_preferences p key password r valid =
    let applied = λ (t : Result × SearchSettings × Bool). record r {
      theme = p.theme;
      session = apply_session p password r.session;
      search = t.1;
      cleared = r.cleared || t.2;
    } in
    if_cases {A = Result × SearchSettings × Bool}
      (λ t.
        (if◌then◌else◌ {A = Result × Runtime} (not t.0.success) (t.0, applied t)
          (apply_provider p key (applied t))).0.success
        ≡ not (is_empty p.proxy_type))
      (not
        (validate_proxy_config p.proxy_enabled p.proxy_type p.proxy_host
          (to_port p.proxy_port)).success)
      _ _
      (λ refused. elim (Bool-cases (is_empty p.proxy_type)) [
        | inl e ↦ ground arith
        | inr e ↦
            let (passed, _) = validate_preferences_parts p e valid in
            absurd (false≢true (ground arith))
      ])
      λ passed. elim (Bool-cases (is_empty p.proxy_type)) [
        | inl e ↦ absurd (
            false≢true (
              ground (
                arith,
                validate_empty_type p.proxy_enabled p.proxy_type p.proxy_host (to_port p.proxy_port)
                    e,
              )))
        | inr e ↦
            let (_, torznab) = validate_preferences_parts p e valid in
            apply_provider-success p key _ torznab ∙ ground arith
      ]
