-- ===== src/Config/Load.antt =====
-- `load` and `save` of src/app/ConfigManager.cpp.
pub mod Accepted
use hypertube.Common.{
  ℤ, pos, negsuc, ltb, Bool, true, false, not, ◌||◌, List, [], ◌∷◌, ◌++◌, Option, none, some, Text,
  codes, msg, if◌then◌else◌, Result, ok, failure, internal,
}
use hypertube.Config.Json.{Json}
use hypertube.Config.Options.{get_config_version}
use hypertube.Config.Defaults.{
  create_default_config, ensure_default_config, migrate_config, or_member,
}
use hypertube.Config.Validate.{validate_config}
use hypertube.Config.Torrents.{Found, missing, unreadable, parsed, Choice, chosen, no_file, no_use}

abbrev pub below_two : ℤ → Bool
below_two (pos n) = ltb n 2
below_two (negsuc n) = true

module _ {J : Type 0} ⦃o : Json J⦄ where
  -- The loop over a file and its backup, each with its path; only a full configuration is validated.
  unfoldable pub choose_config : Bool → List (Text × Found J) → Choice J → Choice J
  unfolding validate_config
  choose_config full [] so_far = so_far
  choose_config full ((path, missing) ∷ files) so_far = choose_config full files so_far
  choose_config full ((path, unreadable error) ∷ files) so_far =
      choose_config full files (no_use error)
  choose_config full ((path, parsed j) ∷ files) so_far =
      let rest = choose_config full files (no_use (msg "Invalid configuration in: " ++ path)) in
      if not full || validate_config j then chosen j else rest

  -- `defaultConfig` of `load`
  unfoldable pub fallback_config : Bool → J
  unfolding create_default_config
  fallback_config full =
      if full then create_default_config else o.put (codes "torrents") (o.of_list []) o.empty_object

  -- What is done with a full configuration that was read, by its version.
  abbrev pub brought_up : ℤ → J → J
  brought_up version config =
      ensure_default_config (if below_two version then migrate_config version config else config)

  -- The result and the new configuration; `what` is the text of an exception that the version, being no
  -- number, throws.
  unfoldable pub load_config : Bool → Text → List (Text × Found J) → Result × J
  unfolding choose_config fallback_config
  load_config full what files = elim (choose_config full files no_file) [
    | no_file ↦ (ok, fallback_config full)
    | no_use error ↦
        (failure (error ++ msg ". Using default values.") internal, fallback_config full)
    | chosen config ↦ if not full then (ok, config) else elim (get_config_version config) [
      | none ↦ (
        failure (msg "Error loading configuration: " ++ (what ++ msg ". Using default values."))
            internal,
        fallback_config full,
      )
      | some version ↦ (ok, brought_up version config)
    ]
  ]

  -- The new configuration of `save`, which is also what is written.
  unfoldable pub save_config : J → J
  save_config config = or_member (codes "version") (o.of_int (pos 2)) config
