-- ===== src/Config/Preferences/RoundTrip.antt =====
-- What is saved of the preferences is what is read.
use hypertube.Common.{
  ℕ, ℤ, pos, negsuc, at_least_zero, clamp, ◌≡◌, refl, sym, ap, ◌∙◌, Bool, true, false, List, [],
  ◌∷◌, none, some, arith, Text, codes, text_beq, text_eq, ◌==◌, if◌then◌else◌, if_rule, if_cases,
  >>=-some, ◌≤◌,
}
use mathlib.Core.Bool.{false≢true}
use hypertube.Config.Json.{Json, object, read_path, read_path-member, read_path-some, read_path-one}
use hypertube.Config.Assign.{
  assign_all, nth, read_path-assign_all, read_path-assign_all_other, assign_all-object,
}
use hypertube.Config.Preferences.{
  PreferencesSettings, UiLayout, known_proxy_type, settings_writes, ui_object, with_version,
  with_settings, then_ui, apply_preferences, int_at, bool_at, text_at, theme_at, get_ui,
  get_preferences_settings, at_ui,
}

-- The layout and the settings as they can be read: numbers within their bounds, a known proxy.
abbrev pub normal_ui : UiLayout → UiLayout
normal_ui ui = record {
  sidebar_width = clamp 120 600 ui.sidebar_width;
  bottom_panel_height = clamp 120 1000 ui.bottom_panel_height;
  sidebar_collapsed = ui.sidebar_collapsed;
  selected_main_tab = at_least_zero ui.selected_main_tab;
  selected_details_tab = at_least_zero ui.selected_details_tab;
}

abbrev pub normal : PreferencesSettings → PreferencesSettings
normal s = record s {
  download_speed_limit = at_least_zero s.download_speed_limit;
  upload_speed_limit = at_least_zero s.upload_speed_limit;
  proxy_type = known_proxy_type s.proxy_type;
  proxy_port = clamp 1 65535 s.proxy_port;
  ui = normal_ui s.ui;
}

at_least_zero_idem : (n : ℤ) → at_least_zero (at_least_zero n) ≡ at_least_zero n
at_least_zero_idem (pos n) = refl
at_least_zero_idem (negsuc n) = refl

clamp_idem :
    (low high : ℕ) (n : ℤ) → low ≤ high → clamp low high (clamp low high n) ≡ clamp low high n
clamp_idem low high (pos n) h = ap pos (omega arith)
clamp_idem low high (negsuc n) h = ap pos (omega arith)

known_proxy_type_idem :
    (type : Text) → known_proxy_type (known_proxy_type type) ≡ known_proxy_type type
unfolding text_beq
known_proxy_type_idem type =
    if_cases (λ t. known_proxy_type t ≡ t) (type == codes "http") _ _ (λ _. refl) (λ _. refl)

pub normal_idem : (s : PreferencesSettings) → normal (normal s) ≡ normal s
normal_idem s = cc (
  at_least_zero_idem s.download_speed_limit,
  at_least_zero_idem s.upload_speed_limit,
  known_proxy_type_idem s.proxy_type,
  clamp_idem 1 65535 s.proxy_port (omega arith),
  clamp_idem 120 600 s.ui.sidebar_width (omega arith),
  clamp_idem 120 1000 s.ui.bottom_panel_height (omega arith),
  at_least_zero_idem s.ui.selected_main_tab,
  at_least_zero_idem s.ui.selected_details_tab,
)

module _ {J : Type 0} ⦃o : Json J⦄ where
  then_ui_lem :
      (ui : UiLayout) (r : J × Bool)
      → (then_ui ui r).1 ≡ true
      → (r.1 ≡ true) × ((then_ui ui r).0 ≡ o.put (codes "ui") (ui_object ui) r.0)
  unfolding then_ui
  then_ui_lem ui (j, true) e = (refl, refl)
  then_ui_lem ui (j, false) e = absurd (false≢true e)

  with_version-object : (config : J) → o.kind (with_version config) ≡ object
  unfolding with_version
  with_version-object config = ground (
    arith,
    o.kind_empty,
    o.kind_put (codes "version") (o.of_int (pos 2)) config,
    o.kind_put (codes "version") (o.of_int (pos 2)) o.empty_object,
  )

  theme_at_lem :
      (n : ℤ) (j : J) → o.member (codes "theme") j ≡ some (o.of_int n) → theme_at j ≡ some n
  unfolding theme_at
  theme_at_lem n j e = ground (arith, e, o.kind_of_int n, o.as_int_of n)

  with_settings-object :
      (config : J) → o.kind config ≡ object → o.kind (with_settings config) ≡ object
  unfolding with_settings
  with_settings-object config e =
      if_rule (λ j. o.kind j ≡ object) _ config (o.put (codes "settings") o.empty_object config) e
        (o.kind_put (codes "settings") o.empty_object config)

  with_settings-theme :
      (config : J)
      → o.kind config ≡ object
      → o.member (codes "theme") (with_settings config) ≡ o.member (codes "theme") config
  unfolding with_settings text_beq
  with_settings-theme config e =
      if_rule (λ j. o.member (codes "theme") j ≡ o.member (codes "theme") config) _ config
        (o.put (codes "settings") o.empty_object config) refl
        (o.member_put (codes "settings") (codes "theme") o.empty_object config e)

module _ {J : Type 0} ⦃o : Json J⦄ (s : PreferencesSettings) (config : J)
    (done : (apply_preferences s config).1 ≡ true) where
  abbrev themed : J
  themed = o.put (codes "theme") (o.of_int s.theme) (with_version config)

  abbrev base : J
  base = with_settings themed

  abbrev assigned : J × Bool
  assigned = assign_all (settings_writes s) base

  base-object : o.kind base ≡ object
  base-object =
      with_settings-object themed
        (o.kind_put (codes "theme") (o.of_int s.theme) (with_version config))

  applied :
      (assigned.1 ≡ true)
      × ((apply_preferences s config).0 ≡ o.put (codes "ui") (ui_object s.ui) assigned.0)
  unfolding apply_preferences
  applied = then_ui_lem s.ui assigned done

  assigned-object : o.kind assigned.0 ≡ object
  unfolding settings_writes
  assigned-object = assign_all-object (settings_writes s) base refl base-object

  -- Behind the assignment of `ui`.
  member-applied :
      (k : Text)
      → o.member k (apply_preferences s config).0
        ≡ (if codes "ui" == k then some (ui_object s.ui) else o.member k assigned.0)
  member-applied k =
      rw applied.1 (o.member_put (codes "ui") k (ui_object s.ui) assigned.0 assigned-object)

  settings_read :
      (n : ℕ) (ks : List Text) (v : J)
      → nth n (settings_writes s) ≡ some (codes "settings" ∷ ks, v)
      → read_path (codes "settings" ∷ ks) (apply_preferences s config).0 ≡ some v
  unfolding read_path text_beq
  settings_read n ks v at =
      read_path-member (codes "settings") ks (apply_preferences s config).0 assigned.0
        (member-applied (codes "settings"))
      ∙ read_path-assign_all n (codes "settings" ∷ ks) v (settings_writes s) base
          (unfold settings_writes in refl) at applied.0

  theme_read : theme_at (apply_preferences s config).0 ≡ some s.theme
  unfolding text_beq settings_writes
  theme_read = theme_at_lem s.theme (apply_preferences s config).0 (
      member-applied (codes "theme")
      ∙ sym (read_path-one (codes "theme") assigned.0)
      ∙ read_path-assign_all_other (codes "theme" ∷ []) (settings_writes s) base refl applied.0
      ∙ read_path-one (codes "theme") base
      ∙ with_settings-theme themed
          (o.kind_put (codes "theme") (o.of_int s.theme) (with_version config))
      ∙ o.member_put (codes "theme") (codes "theme") (o.of_int s.theme) (with_version config)
          (with_version-object config))

  ui_read :
      (k : Text) (v : J)
      → o.member k (ui_object s.ui) ≡ some v
      → read_path (at_ui k) (apply_preferences s config).0 ≡ some v
  unfolding read_path text_beq
  ui_read k v e =
      read_path-some (codes "ui") (k ∷ []) (apply_preferences s config).0 (ui_object s.ui)
        (member-applied (codes "ui"))
      ∙ read_path-some k [] (ui_object s.ui) v e

  -- Each value, through the conversion.
  int_read :
      (fallback : ℤ) (path : List Text) (n : ℤ) (j : J)
      → read_path path j ≡ some (o.of_int n)
      → int_at path fallback j ≡ some n
  int_read fallback path n j e =
      ap (λ r. elim r [ none ↦ some fallback | some v ↦ o.as_int v ]) e ∙ o.as_int_of n

  bool_read :
      (fallback : Bool) (path : List Text) (b : Bool) (j : J)
      → read_path path j ≡ some (o.of_bool b)
      → bool_at path fallback j ≡ some b
  bool_read fallback path b j e =
      ap (λ r. elim r [ none ↦ some fallback | some v ↦ o.as_bool v ]) e ∙ o.as_bool_of b

  text_read :
      (fallback : Text) (path : List Text) (t : Text) (j : J)
      → read_path path j ≡ some (o.of_text t)
      → text_at path fallback j ≡ some t
  text_read fallback path t j e =
      ap (λ r. elim r [ none ↦ some fallback | some v ↦ o.as_text v ]) e ∙ o.as_text_of t

  -- The members of the layout, from the last that was put.
  ui_puts :
      (k : Text)
      → o.member k (ui_object s.ui) ≡ (
          if codes "sidebar_width" == k
          then some (o.of_int (clamp 120 600 s.ui.sidebar_width))
          else if codes "bottom_panel_height" == k
          then some (o.of_int (clamp 120 1000 s.ui.bottom_panel_height))
          else if codes "sidebar_collapsed" == k
          then some (o.of_bool s.ui.sidebar_collapsed)
          else if codes "selected_main_tab" == k
          then some (o.of_int (at_least_zero s.ui.selected_main_tab))
          else if codes "selected_details_tab" == k
          then some (o.of_int (at_least_zero s.ui.selected_details_tab))
          else none)
  unfolding ui_object
  ui_puts k = simp (o.member_put, o.kind_put, o.kind_empty, o.member_empty)

  get_ui-apply : get_ui (apply_preferences s config).0 ≡ some (normal_ui s.ui)
  unfolding get_ui text_beq
  get_ui-apply =
      >>=-some _ _
        (int_read (pos 240) _ (clamp 120 600 s.ui.sidebar_width) _
          (ui_read (codes "sidebar_width") _ (ui_puts _)))
        (>>=-some _ _
          (int_read (pos 300) _ (clamp 120 1000 s.ui.bottom_panel_height) _
            (ui_read (codes "bottom_panel_height") _ (ui_puts _)))
          (>>=-some _ _
            (bool_read false _ s.ui.sidebar_collapsed _
              (ui_read (codes "sidebar_collapsed") _ (ui_puts _)))
            (>>=-some _ _
              (int_read (pos 0) _ (at_least_zero s.ui.selected_main_tab) _
                (ui_read (codes "selected_main_tab") _ (ui_puts _)))
              (>>=-some _ _
                (int_read (pos 0) _ (at_least_zero s.ui.selected_details_tab) _
                  (ui_read (codes "selected_details_tab") _ (ui_puts _)))
                (cc (
                  clamp_idem 120 600 s.ui.sidebar_width (omega arith),
                  clamp_idem 120 1000 s.ui.bottom_panel_height (omega arith),
                  at_least_zero_idem s.ui.selected_main_tab,
                  at_least_zero_idem s.ui.selected_details_tab,
                ))))))

  -- Preferences that are saved without an exception, into any configuration, are read as they were
  -- saved, with the numbers brought within their bounds and an unknown type of proxy taken for SOCKS.
  pub get_preferences_settings-apply_preferences :
      get_preferences_settings (apply_preferences s config).0 ≡ some (normal s)
  unfolding get_preferences_settings settings_writes
  get_preferences_settings-apply_preferences =
      >>=-some _ _
        (int_read (pos 0) _ (at_least_zero s.download_speed_limit) _ (settings_read 0 _ _ refl))
        (>>=-some _ _
          (int_read (pos 0) _ (at_least_zero s.upload_speed_limit) _ (settings_read 1 _ _ refl))
          (>>=-some _ _ theme_read (
            >>=-some _ _
              (text_read (codes "~/Downloads") _ s.download_path _ (settings_read 2 _ _ refl))
              (>>=-some _ _ (bool_read true _ s.enable_dht _ (settings_read 3 _ _ refl)) (
                >>=-some _ _ (bool_read true _ s.enable_upnp _ (settings_read 4 _ _ refl)) (
                  >>=-some _ _ (bool_read true _ s.enable_nat_pmp _ (settings_read 5 _ _ refl)) (
                    >>=-some _ _ (bool_read false _ s.torznab_enabled _ (settings_read 6 _ _ refl))
                      (>>=-some _ _ (text_read [] _ s.torznab_url _ (settings_read 7 _ _ refl)) (
                        >>=-some _ _
                          (bool_read false _ s.proxy_enabled _ (settings_read 8 _ _ refl))
                          (>>=-some _ _
                            (text_read (codes "socks5") _ (known_proxy_type s.proxy_type) _
                              (settings_read 9 _ _ refl))
                            (>>=-some _ _
                              (text_read (codes "127.0.0.1") _ s.proxy_host _
                                (settings_read 10 _ _ refl))
                              (>>=-some _ _
                                (int_read (pos 1080) _ (clamp 1 65535 s.proxy_port) _
                                  (settings_read 11 _ _ refl))
                                (>>=-some _ _
                                  (text_read [] _ s.proxy_username _ (settings_read 12 _ _ refl))
                                  (>>=-some _ _ get_ui-apply (
                                    cc (
                                      at_least_zero_idem s.download_speed_limit,
                                      at_least_zero_idem s.upload_speed_limit,
                                      clamp_idem 1 65535 s.proxy_port (omega arith),
                                    ))))))))))))))))
