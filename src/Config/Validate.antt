-- ===== src/Config/Validate.antt =====
-- `validateConfig` of src/app/ConfigManager.cpp, and what it promises to the getters. Integers fit
-- an `int`.
use hypertube.Common.{
  ℕ, ℤ, pos, negsuc, ◌≡◌, refl, sym, ap, ◌∙◌, Bool, true, false, not, ◌&&◌, [], ◌∷◌, Option, none,
  some, arith, Text, codes, if◌then◌else◌, in_range, is_negative, is_some, option_rule,
  Option-cases, inl, inr, >>=-some,
}
use mathlib.Core.Bool.{false≢true}
use hypertube.Config.Json.{
  Json, number_integer, boolean, is_object, member-object, read_path, read_path-inside,
  read_path-one,
}
use hypertube.Config.Preferences.{get_ui, at_ui}
use hypertube.Config.Options.{get_download_speed_limit, speed_limit}

not_negative : (n : ℤ) → not (is_negative n) ≡ true → (k : ℕ) × (n ≡ pos k)
not_negative (pos k) h = (k, refl)
not_negative (negsuc k) h = absurd (false≢true h)

and_split : (a : Bool) {b : Bool} → (a && b) ≡ true → (a ≡ true) × (b ≡ true)
and_split true h = (refl, h)
and_split false h = absurd (false≢true h)

module _ {J : Type 0} ⦃o : Json J⦄ where
  abbrev is_integer : J → Bool
  is_integer v = elim (o.kind v) [ number_integer ↦ true | _ ↦ false ]

  -- An integer that passes a test.
  unfoldable pub int_passes : (ℤ → Bool) → J → Bool
  int_passes test v = is_integer v && elim (o.as_int v) [ none ↦ false | some n ↦ test n ]

  -- A member that is not there passes.
  unfoldable pub member_passes : (J → Bool) → Text → J → Bool
  member_passes test k j = elim (o.member k j) [ none ↦ true | some v ↦ test v ]

  abbrev is_limit : J → Bool
  is_limit = int_passes λ n. not (is_negative n)

  unfoldable pub valid_limits : J → Bool
  unfolding int_passes member_passes
  valid_limits limits =
      member_passes is_limit (codes "download") limits
      && member_passes is_limit (codes "upload") limits

  abbrev is_boolean : J → Bool
  is_boolean v = elim (o.kind v) [ boolean ↦ true | _ ↦ false ]

  unfoldable pub valid_ui : J → Bool
  unfolding int_passes member_passes
  valid_ui ui =
      is_object ui
      && (member_passes (int_passes (in_range 120 600)) (codes "sidebar_width") ui
          && (member_passes (int_passes (in_range 120 1000)) (codes "bottom_panel_height") ui
              && (member_passes is_boolean (codes "sidebar_collapsed") ui
                  && (member_passes is_limit (codes "selected_main_tab") ui
                      && member_passes is_limit (codes "selected_details_tab") ui))))

  -- The limits of the settings are looked at where both are objects.
  unfoldable pub valid_settings : J → Bool
  unfolding valid_limits
  valid_settings config = elim (o.member (codes "settings") config) [
    | none ↦ true
    | some settings ↦
        if not (is_object settings) then true else elim (o.member (codes "speed_limits") settings) [
          | none ↦ true
          | some limits ↦ if is_object limits then valid_limits limits else true
        ]
  ]

  unfoldable pub validate_config : J → Bool
  unfolding valid_limits valid_settings valid_ui member_passes
  validate_config config =
      is_object config
      && (member_passes (λ limits. is_object limits && valid_limits limits) (codes "speed_limits")
            config
          && (valid_settings config && member_passes valid_ui (codes "ui") config))

  int_passes_lem :
      (test : ℤ → Bool) (v : J)
      → int_passes test v ≡ true
      → (n : ℤ) × (o.as_int v ≡ some n) × (test n ≡ true)
  unfolding int_passes
  int_passes_lem test v = elim (Option-cases (o.as_int v)) [
    | inl none_there ↦ λ e. ground arith
    | inr (n, there) ↦ λ e. (n, there, ground arith)
  ]

  member_passes_lem :
      (test : J → Bool) (k : Text) (j v : J)
      → member_passes test k j ≡ true
      → o.member k j ≡ some v
      → test v ≡ true
  unfolding member_passes
  member_passes_lem test k j v h e = ground arith

  limit_read :
      (limits v : J)
      → valid_limits limits ≡ true
      → o.member (codes "download") limits ≡ some v
      → (n : ℕ) × (o.as_int v ≡ some (pos n))
  unfolding valid_limits
  limit_read limits v h e =
      let (n, there, passes) =
        int_passes_lem (λ n. not (is_negative n)) v
          (member_passes_lem is_limit (codes "download") limits v (ground arith) e) in
      let (k, same) = not_negative n passes in (k, there ∙ ap some same)

  settings_limits :
      (config settings limits v : J)
      → valid_settings config ≡ true
      → o.member (codes "settings") config ≡ some settings
      → o.member (codes "speed_limits") settings ≡ some limits
      → o.member (codes "download") limits ≡ some v
      → valid_limits limits ≡ true
  unfolding valid_settings
  settings_limits config settings limits v h e e' e'' = ground (
    arith,
    member-object (codes "speed_limits") settings limits e',
    member-object (codes "download") limits v e'',
  )

  down_one :
      (j v : J)
      → read_path (codes "download" ∷ []) j ≡ some v
      → o.member (codes "download") j ≡ some v
  down_one j v e = sym (read_path-one (codes "download") j) ∙ e

  -- In a valid configuration the speed limit is read without an exception, and is not negative.
  pub validate_config-get_download_speed_limit :
      (config : J)
      → validate_config config ≡ true
      → (n : ℕ) × (get_download_speed_limit config ≡ some (pos n))
  unfolding validate_config get_download_speed_limit speed_limit
  validate_config-get_download_speed_limit config h =
      option_rule {C = Option ℤ} (λ r. (n : ℕ) × (r ≡ some (pos n)))
        (read_path (codes "speed_limits" ∷ codes "download" ∷ []) config) _ _
        (λ absent.
          option_rule {C = Option ℤ} (λ r. (n : ℕ) × (r ≡ some (pos n)))
            (read_path (codes "settings" ∷ codes "speed_limits" ∷ codes "download" ∷ []) config) _ _
            (λ _. (0, refl))
            λ v found.
              let (settings, e, down) = read_path-inside (codes "settings") _ config v found in
              let (limits, e', down') = read_path-inside (codes "speed_limits") _ settings v down in
              limit_read limits v
                (settings_limits config settings limits v (ground arith) e e'
                  (down_one limits v down'))
                (down_one limits v down'))
        λ v found.
          let (limits, e, down) = read_path-inside (codes "speed_limits") _ config v found in
          limit_read limits v
            (ground (
              arith,
              member_passes_lem (λ l. is_object l && valid_limits l) (codes "speed_limits") config
                  limits (ground arith) e,
            ))
            (down_one limits v down)

  ui_value {ℓ} :
      {A : Type ℓ} (k : Text) (fallback : A) (convert : J → Option A) (test : J → Bool) (config : J)
      → member_passes valid_ui (codes "ui") config ≡ true
      → ((ui : J) → valid_ui ui ≡ true → member_passes test k ui ≡ true)
      → ((v : J) → test v ≡ true → (a : A) × (convert v ≡ some a))
      → (a : A) × (elim (read_path (at_ui k) config) [ none ↦ some fallback | some v ↦ convert v ]
          ≡ some a)
  ui_value {A = A} k fallback convert test config h passes reads =
      option_rule {C = Option A} (λ r. (a : A) × (r ≡ some a)) (read_path (at_ui k) config) _ _
        (λ absent. (fallback, refl))
        λ v found.
          let (ui, e, down) = read_path-inside (codes "ui") (k ∷ []) config v found in
          reads v (
            member_passes_lem test k ui v
              (passes ui (member_passes_lem valid_ui (codes "ui") config ui h e))
              (sym (read_path-one k ui) ∙ down))

  int_reads : (test : ℤ → Bool) (v : J) → int_passes test v ≡ true → (n : ℤ) × (o.as_int v ≡ some n)
  int_reads test v h = let (n, there, passed) = int_passes_lem test v h in (n, there)

  bool_reads : (v : J) → is_boolean v ≡ true → (b : Bool) × (o.as_bool v ≡ some b)
  bool_reads v h = o.as_bool_boolean v (ground arith)

  -- The tests of a valid layout, one by one.
  valid_ui_parts :
      (ui : J)
      → valid_ui ui ≡ true
      → (member_passes (int_passes (in_range 120 600)) (codes "sidebar_width") ui ≡ true)
        × (member_passes (int_passes (in_range 120 1000)) (codes "bottom_panel_height") ui ≡ true)
        × (member_passes is_boolean (codes "sidebar_collapsed") ui ≡ true)
        × (member_passes is_limit (codes "selected_main_tab") ui ≡ true)
        × (member_passes is_limit (codes "selected_details_tab") ui ≡ true)
  unfolding valid_ui
  valid_ui_parts ui h =
      let (_, h1) = and_split (is_object ui) h in
      let (a, h2) = and_split _ h1 in
      let (b, h3) = and_split _ h2 in
      let (c, h4) = and_split _ h3 in let (d, e) = and_split _ h4 in (a, b, c, d, e)

  validate_config-valid_ui :
      (config : J)
      → validate_config config ≡ true
      → member_passes valid_ui (codes "ui") config ≡ true
  unfolding validate_config
  validate_config-valid_ui config h =
      let (_, h1) = and_split (is_object config) h in
      let (_, h2) = and_split _ h1 in let (_, e) = and_split _ h2 in e

  pub validate_config-object_ui :
      (config : J)
      → validate_config config ≡ true
      → elim (o.member (codes "ui") config) [ none ↦ true | some w ↦ is_object w ] ≡ true
  unfolding valid_ui
  validate_config-object_ui config valid =
      option_rule {C = Bool} (λ b. b ≡ true) (o.member (codes "ui") config) _ _ (λ _. refl)
        λ w there.
          let ui =
            member_passes_lem valid_ui (codes "ui") config w (validate_config-valid_ui config valid)
              there in
          let (object_ui, _) = and_split (is_object w) ui in object_ui

  -- In a valid configuration the layout is read without an exception.
  pub validate_config-get_ui :
      (config : J) → validate_config config ≡ true → is_some (get_ui config) ≡ true
  unfolding get_ui
  validate_config-get_ui config valid =
      let h = validate_config-valid_ui config valid in
      let (a, ea) =
        ui_value (codes "sidebar_width") (pos 240) o.as_int _ config h
          (λ u v. let (t, _, _, _, _) = valid_ui_parts u v in t) (int_reads (in_range 120 600)) in
      let (b, eb) =
        ui_value (codes "bottom_panel_height") (pos 300) o.as_int _ config h
          (λ u v. let (_, t, _, _, _) = valid_ui_parts u v in t) (int_reads (in_range 120 1000)) in
      let (c, ec) =
        ui_value (codes "sidebar_collapsed") false o.as_bool _ config h
          (λ u v. let (_, _, t, _, _) = valid_ui_parts u v in t) bool_reads in
      let (d, ed) =
        ui_value (codes "selected_main_tab") (pos 0) o.as_int _ config h
          (λ u v. let (_, _, _, t, _) = valid_ui_parts u v in t)
          (int_reads (λ n. not (is_negative n))) in
      let (e, ee) =
        ui_value (codes "selected_details_tab") (pos 0) o.as_int _ config h
          (λ u v. let (_, _, _, _, t) = valid_ui_parts u v in t)
          (int_reads (λ n. not (is_negative n))) in
      ap is_some (
        >>=-some _ _ ea
          (>>=-some _ _ eb (>>=-some _ _ ec (>>=-some _ _ ed (>>=-some _ _ ee refl)))))
