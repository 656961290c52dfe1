-- ===== src/Config/Load/Accepted.antt =====
-- A configuration that is loaded keeps its values.
use hypertube.Common.{
  pos, ◌≡◌, ap, ◌∙◌, true, false, List, [], ◌∷◌, ◌++◌, All, msg, some, arith, Text, ok,
}
use hypertube.Config.Json.{Json, is_object, read_path}
use hypertube.Config.Options.{get_config_version}
use hypertube.Config.Defaults.{ensure_default_config}
use hypertube.Config.Defaults.Kept.{Keeps, ensure_default_config-Keeps}
use hypertube.Config.Validate.{validate_config, validate_config-object_ui}
use hypertube.Config.Torrents.{Found, missing, unreadable, parsed, Choice, chosen, no_file, no_use}
use hypertube.Config.Load.{choose_config, load_config}

module _ {J : Type 0} ⦃o : Json J⦄ where
  valid-object : (config : J) → validate_config config ≡ true → is_object config ≡ true
  unfolding validate_config
  valid-object config h = ground arith

  -- A file that is not there, cannot be read, or holds no valid configuration.
  abbrev pub Unusable : Text × Found J → Type 0
  Unusable (path, missing) = Unit
  Unusable (path, unreadable error) = Unit
  Unusable (path, parsed j) = validate_config j ≡ false

  choose_config-first :
      (before : List (Text × Found J)) (so_far : Choice J) (path : Text) (config : J)
      (files : List (Text × Found J))
      → All Unusable before
      → validate_config config ≡ true
      → choose_config true (before ++ ((path, parsed config) ∷ files)) so_far ≡ chosen config
  unfolding choose_config
  choose_config-first [] so_far path config files h valid = ground (arith, valid)
  choose_config-first ((p, missing) ∷ before) so_far path config files (_, h) valid =
      choose_config-first before so_far path config files h valid
  choose_config-first ((p, unreadable error) ∷ before) so_far path config files (_, h) valid =
      choose_config-first before _ path config files h valid
  choose_config-first ((p, parsed j) ∷ before) so_far path config files (bad, h) valid =
      let rest =
        choose_config-first before (no_use (msg "Invalid configuration in: " ++ p)) path config
          files h valid in
      ground (arith, bad, rest)

  after_choice :
      (what : Text) (config : J) (files : List (Text × Found J))
      → choose_config true files no_file ≡ chosen config
      → get_config_version config ≡ some (pos 2)
      → load_config true what files ≡ (ok, ensure_default_config config)
  unfolding load_config
  after_choice what config files chose version = ground (arith, chose, version)

  -- The first of the files that holds a valid configuration is loaded: with a configuration of the
  -- present version, which is 2, the call succeeds, and every value of it that is no object is read as
  -- it is in the file.
  pub load_config-Keeps :
      (what path : Text) (config : J) (before files : List (Text × Found J))
      → All Unusable before
      → validate_config config ≡ true
      → get_config_version config ≡ some (pos 2)
      → let t = load_config true what (before ++ ((path, parsed config) ∷ files)) in
        (t.0 ≡ ok) × Keeps config t.1
  load_config-Keeps what path config before files h valid version =
      let same =
        after_choice what config (before ++ ((path, parsed config) ∷ files))
          (choose_config-first before no_file path config files h valid) version in
      let keeps =
        ensure_default_config-Keeps config (valid-object config valid)
          (validate_config-object_ui config valid) in
      (ap (λ t. t.0) same, λ ls v plain e. ap (λ t. read_path ls t.1) same ∙ keeps ls v plain e)
