-- ===== src/Config/Options/Written.antt =====
-- A value that is set is read again, and the others are left alone.
use hypertube.Common.{
  ℤ, pos, at_least_zero, ◌≡◌, refl, sym, ap, ◌∙◌, Bool, true, false, List, [], ◌∷◌, none, some,
  arith, Text, codes, text_beq, option_rule, if_rule, ◌==◌, text_eq, is_some, Option-cases, inl,
  inr,
}
use hypertube.Config.Json.{
  Json, parts, parts-empty, read_path-some, read_path-put_path, read_path, put_path, read_path-one,
}
use hypertube.Config.Assign.{assign_all, read_path-assign_all, read_path-assign_all_other}
use hypertube.Config.Preferences.{int_at}
use hypertube.Config.Options.{
  set_setting, set_download_speed_limit, speed_limit, get_download_speed_limit,
}

module _ {J : Type 0} ⦃o : Json J⦄ where
  abbrev Sets : List Text → List Text → J → J → J × Bool → Type 0
  Sets path other v config r =
      r.1 ≡ true
      → (read_path (codes "settings" ∷ path) r.0 ≡ some v)
        × (read_path (codes "settings" ∷ other) r.0 ≡ read_path (codes "settings" ∷ other) config)

  assign-Sets :
      (path other : List Text) (v config : J)
      → parts path other ≡ true
      → Sets path other v config (assign_all ((codes "settings" ∷ path, v) ∷ []) config)
  unfolding text_beq
  assign-Sets path other v config p e = (
    read_path-assign_all 0 (codes "settings" ∷ path) v ((codes "settings" ∷ path, v) ∷ []) config
        refl refl e,
    read_path-assign_all_other (codes "settings" ∷ other) ((codes "settings" ∷ path, v) ∷ []) config
        (ground arith) e,
  )

  -- An empty object under `settings` makes no difference to what is below it.
  read-opened :
      (path other : List Text) (config t : J)
      → parts path other ≡ true
      → o.member (codes "settings") config ≡ none
      → put_path (codes "settings" ∷ []) o.empty_object config ≡ some t
      → read_path (codes "settings" ∷ other) t ≡ read_path (codes "settings" ∷ other) config
  unfolding read_path
  read-opened path other config t p absent e =
      read_path-some (codes "settings") other t o.empty_object (
        sym (read_path-one (codes "settings") t)
        ∙ read_path-put_path (codes "settings" ∷ []) o.empty_object config t e)
      ∙ parts-empty path other p
      ∙ ap (λ m. elim m [ none ↦ none | some w ↦ read_path other w ]) (sym absent)

  -- Setting a value that does not throw: the value is read under its path, and what stands under a
  -- path that parts from it is read as before.
  pub read_path-set_setting :
      (path other : List Text) (v config : J)
      → parts path other ≡ true
      → (set_setting path v config).1 ≡ true
      → (read_path (codes "settings" ∷ path) (set_setting path v config).0 ≡ some v)
        × (read_path (codes "settings" ∷ other) (set_setting path v config).0
            ≡ read_path (codes "settings" ∷ other) config)
  unfolding set_setting assign_all
  read_path-set_setting path other v config p =
      elim (Option-cases (o.member (codes "settings") config)) [
        | inr (w, there) ↦ rw there (assign-Sets path other v config p)
        | inl absent ↦ rw absent (
            option_rule {C = J × Bool} (Sets path other v config)
              (put_path (codes "settings" ∷ []) o.empty_object config) _ _ (λ _ e. cc)
              λ t opens e.
                let (written, kept) = assign-Sets path other v t p e in
                (written, kept ∙ read-opened path other config t p absent opens))
      ]

  -- What stands beside the settings is left alone.
  read_path-set_setting_beside :
      (path ks : List Text) (k : Text) (v config : J)
      → (codes "settings" == k) ≡ false
      → (set_setting path v config).1 ≡ true
      → read_path (k ∷ ks) (set_setting path v config).0 ≡ read_path (k ∷ ks) config
  unfolding set_setting
  read_path-set_setting_beside path ks k v config apart =
      if_rule {A = J × Bool} (λ r. r.1 ≡ true → read_path (k ∷ ks) r.0 ≡ read_path (k ∷ ks) config)
        (is_some (o.member (codes "settings") config)) _ _
        (read_path-assign_all_other (k ∷ ks) ((codes "settings" ∷ path, v) ∷ []) config
          (ground arith))
        (read_path-assign_all_other (k ∷ ks)
          ((codes "settings" ∷ [], o.empty_object) ∷ (codes "settings" ∷ path, v) ∷ []) config
          (ground arith))

  -- A limit that is set without an exception is read, a negative one as 0, unless the
  -- configuration has one at its root: then that one is read.
  pub get-set_download_speed_limit :
      (n : ℤ) (config : J)
      → (set_download_speed_limit n config).1 ≡ true
      → get_download_speed_limit (set_download_speed_limit n config).0
        ≡ elim (read_path (codes "speed_limits" ∷ codes "download" ∷ []) config) [
          | none ↦ some (at_least_zero n)
          | some v ↦ o.as_int v
        ]
  unfolding set_download_speed_limit get_download_speed_limit speed_limit text_beq
  get-set_download_speed_limit n config done =
      let limit = codes "speed_limits" ∷ codes "download" ∷ [] in
      let t = (set_setting limit (o.of_int (at_least_zero n)) config).0 in
      ap (λ r. elim r [ some v ↦ o.as_int v | none ↦ int_at (codes "settings" ∷ limit) (pos 0) t ])
        (read_path-set_setting_beside limit (codes "download" ∷ []) (codes "speed_limits")
          (o.of_int (at_least_zero n)) config refl done)
      ∙ ap (λ inner. elim (read_path limit config) [ some v ↦ o.as_int v | none ↦ inner ])
          (ap (λ r. elim r [ none ↦ some (pos 0) | some v ↦ o.as_int v ])
              (read_path-set_setting limit (codes "a" ∷ []) (o.of_int (at_least_zero n)) config refl
                done).0
            ∙ o.as_int_of (at_least_zero n))
