-- ===== src/Config/Defaults/Kept.antt =====
-- Filling in the defaults leaves the values that are there.
use hypertube.Common.{
  ◌≡◌, refl, sym, ap, ◌∙◌, true, false, not, ◌&&◌, List, [], ◌∷◌, none, some, arith, Text, codes,
  text_eq, text_beq, text_beq_iff, ◌==◌, is_some, if◌then◌else◌, if_cases, if_rule, option_rule,
  Bool-cases, inl, inr, pos,
}
use mathlib.Core.Bool.{false≢true}
use hypertube.Config.Json.{
  Json, object, is_object, member-object, read_path, read_path-inside, read_path-some,
  read_path-member,
}
use hypertube.Config.Defaults.{
  fill, apply_missing_defaults, fill_below, or_object, or_member, ensure_default_config,
  default_settings, default_ui, built,
}

module _ {J : Type 0} ⦃o : Json J⦄ where
  object-kind : (j : J) → is_object j ≡ true → o.kind j ≡ object
  object-kind j h = ground arith

  -- What is read from an object below a key that another value was put beside.
  pub read_path-put_other :
      (k l : Text) (ls : List Text) (u j : J)
      → is_object j ≡ true
      → (k == l) ≡ false
      → read_path (l ∷ ls) (o.put k u j) ≡ read_path (l ∷ ls) j
  read_path-put_other k l ls u j h apart =
      read_path-member l ls (o.put k u j) j
        (ground (arith, o.member_put k l u j (object-kind j h), apart))

  pub read_path-put :
      (k l : Text) (ls : List Text) (u j : J)
      → is_object j ≡ true
      → (k == l) ≡ true
      → read_path (l ∷ ls) (o.put k u j) ≡ read_path ls u
  read_path-put k l ls u j h same =
      read_path-some l ls (o.put k u j) u
        (ground (arith, o.member_put k l u j (object-kind j h), same))

  -- A value that is no object, and is read, is read as before.
  abbrev pub Keeps : J → J → Type 0
  Keeps j t =
      (ls : List Text) (v : J)
      → is_object v ≡ false
      → read_path ls j ≡ some v
      → read_path ls t ≡ some v

  read_path-nil : (j v : J) → read_path [] j ≡ some v → j ≡ v
  unfolding read_path
  read_path-nil j v e = ground arith

  -- A value put under a key that was not there.
  put_missing-Keeps :
      (k : Text) (u j : J) → is_object j ≡ true → o.member k j ≡ none → Keeps j (o.put k u j)
  put_missing-Keeps k u j h absent [] v plain e =
      absurd (false≢true (sym plain ∙ ap is_object (sym (read_path-nil j v e)) ∙ h))
  put_missing-Keeps k u j h absent (l ∷ ls) v plain e = elim (Bool-cases (k == l)) [
    | inl same ↦ let (w, there, _) = read_path-inside l ls j v e in ground (arith, text_beq_iff k l)
    | inr apart ↦ read_path-put_other k l ls u j h apart ∙ e
  ]

  -- A member is replaced by one that keeps its values.
  put_inside-Keeps :
      (k : Text) (u w j : J) → o.member k j ≡ some w → Keeps w u → Keeps j (o.put k u j)
  put_inside-Keeps k u w j there keeps [] v plain e = absurd (
      false≢true (sym plain ∙ ap is_object (sym (read_path-nil j v e)) ∙ member-object k j w there))
  put_inside-Keeps k u w j there keeps (l ∷ ls) v plain e =
      let h = member-object k j w there in
      elim (Bool-cases (k == l)) [
        | inl same ↦
            let down = read_path-some k ls j w there in
            read_path-put k l ls u j h same
            ∙ keeps ls v plain
                (sym down ∙ ap (λ m. read_path (m ∷ ls) j) ((text_beq_iff k l).0 same) ∙ e)
        | inr apart ↦ read_path-put_other k l ls u j h apart ∙ e
      ]

  fill-Keeps : (ks : List Text) (d j : J) → Keeps j (fill ks d j)
  unfolding fill
  fill-Keeps [] d j = λ ls v plain e. e
  fill-Keeps (k ∷ []) d j =
      if_cases (Keeps j) (is_object j && not (is_some (o.member k j))) _ _
        (λ h. put_missing-Keeps k d j (ground arith) (ground arith)) (λ _ ls v plain e. e)
  fill-Keeps (k ∷ l ∷ ks) d j =
      if_cases (Keeps j) (not (is_object j)) _ _ (λ _ ls v plain e. e)
        λ h.
          option_rule (Keeps j) (o.member k j) _ _
            (λ absent. put_missing-Keeps k (built ((l ∷ ks, d) ∷ [])) j (ground arith) absent)
            λ w there.
              if_cases (Keeps j) (is_object w) _ _
                (λ _. put_inside-Keeps k (fill (l ∷ ks) d w) w j there (fill-Keeps (l ∷ ks) d w))
                (λ _ ls v plain e. e)

  apply_missing-Keeps :
      (defaults : List (List Text × J)) (j : J) → Keeps j (apply_missing_defaults defaults j)
  unfolding apply_missing_defaults
  apply_missing-Keeps [] j = λ ls v plain e. e
  apply_missing-Keeps ((path, d) ∷ defaults) j = λ ls v plain e.
      apply_missing-Keeps defaults (fill path d j) ls v plain (fill-Keeps path d j ls v plain e)

  fill_below-Keeps :
      (k : Text) (defaults : List (List Text × J)) (j : J) → Keeps j (fill_below k defaults j)
  fill_below-Keeps k defaults j =
      option_rule (Keeps j) (o.member k j) _ _ (λ _ ls v plain e. e)
        λ w there. put_inside-Keeps k _ w j there (apply_missing-Keeps defaults w)

  or_member-Keeps : (k : Text) (u j : J) → is_object j ≡ true → Keeps j (or_member k u j)
  or_member-Keeps k u j h =
      if_cases (Keeps j) (is_some (o.member k j)) _ _ (λ _ ls v plain e. e)
        (λ absent. put_missing-Keeps k u j h (ground arith))

  or_member-object : (k : Text) (u j : J) → is_object j ≡ true → is_object (or_member k u j) ≡ true
  or_member-object k u j h =
      if_rule {A = J} (λ t. is_object t ≡ true) (is_some (o.member k j)) _ _ h
        (ground (arith, o.kind_put k u j))

  fill_below-object :
      (k : Text) (defaults : List (List Text × J)) (j : J)
      → is_object j ≡ true
      → is_object (fill_below k defaults j) ≡ true
  fill_below-object k defaults j h =
      option_rule {C = J} (λ t. is_object t ≡ true) (o.member k j) _ _ (λ _. h)
        λ w _. ground (arith, o.kind_put k (apply_missing_defaults defaults w) j)

  -- A member that is there is an object.
  abbrev pub ObjectAt : Text → J → Type 0
  ObjectAt k j = elim (o.member k j) [ none ↦ true | some w ↦ is_object w ] ≡ true

  ObjectAt-put :
      (k l : Text) (u j : J)
      → is_object j ≡ true
      → (k == l) ≡ false
      → ObjectAt l j
      → ObjectAt l (o.put k u j)
  ObjectAt-put k l u j h apart there =
      ap (λ m. elim m [ none ↦ true | some w ↦ is_object w ])
        (o.member_put k l u j (object-kind j h)
          ∙ ap (λ b. if b then some u else o.member l j) apart)
      ∙ there

  or_member-ObjectAt :
      (k l : Text) (u j : J)
      → is_object j ≡ true
      → (k == l) ≡ false
      → ObjectAt l j
      → ObjectAt l (or_member k u j)
  or_member-ObjectAt k l u j h apart there =
      if_rule (ObjectAt l) (is_some (o.member k j)) _ _ there (ObjectAt-put k l u j h apart there)

  fill_below-ObjectAt :
      (k l : Text) (defaults : List (List Text × J)) (j : J)
      → is_object j ≡ true
      → (k == l) ≡ false
      → ObjectAt l j
      → ObjectAt l (fill_below k defaults j)
  fill_below-ObjectAt k l defaults j h apart there =
      option_rule (ObjectAt l) (o.member k j) _ _ (λ _. there)
        λ w _. ObjectAt-put k l (apply_missing_defaults defaults w) j h apart there

  or_object-Keeps : (k : Text) (j : J) → is_object j ≡ true → ObjectAt k j → Keeps j (or_object k j)
  or_object-Keeps k j h there =
      if_cases (Keeps j) (elim (o.member k j) [ none ↦ false | some w ↦ is_object w ]) _ _
        (λ _ ls v plain e. e) λ absent. put_missing-Keeps k o.empty_object j h (ground arith)

  -- The defaults that are filled in change no value of a configuration that is an object, and whose
  -- `ui`, if it has one, is an object: every value that is no object is read as before.
  pub ensure_default_config-Keeps :
      (config : J)
      → is_object config ≡ true
      → ObjectAt (codes "ui") config
      → Keeps config (ensure_default_config config)
  unfolding ensure_default_config text_beq
  ensure_default_config-Keeps config h ui ls v plain e =
      let version = codes "version" in
      let settings = codes "settings" in
      let c1 = or_member version (o.of_int (pos 2)) config in
      let h1 = or_member-object version (o.of_int (pos 2)) config h in
      let c2 = or_member settings o.empty_object c1 in
      let h2 = or_member-object settings o.empty_object c1 h1 in
      let c3 = fill_below settings default_settings c2 in
      let h3 = fill_below-object settings default_settings c2 h2 in
      let ui1 = or_member-ObjectAt version (codes "ui") (o.of_int (pos 2)) config h refl ui in
      let ui2 = or_member-ObjectAt settings (codes "ui") o.empty_object c1 h1 refl ui1 in
      let ui3 = fill_below-ObjectAt settings (codes "ui") default_settings c2 h2 refl ui2 in
      fill_below-Keeps (codes "ui") default_ui (or_object (codes "ui") c3) ls v plain (
        or_object-Keeps (codes "ui") c3 h3 ui3 ls v plain (
          fill_below-Keeps settings default_settings c2 ls v plain (
            or_member-Keeps settings o.empty_object c1 h1 ls v plain
              (or_member-Keeps version (o.of_int (pos 2)) config h ls v plain e))))
