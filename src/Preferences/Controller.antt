-- ===== src/Preferences/Controller.antt =====
-- The state machine of src/presentation/PreferencesController.cpp. A future that is ready comes with
-- the result of writing the file.
mod State
unfoldable pub use State.*
use hypertube.Common.{
  Bool, true, false, not, ◌&&◌, ◌||◌, List, [], ◌∷◌, ◌++◌, Option, none, some, Text, codes, msg,
  if◌then◌else◌, is_empty, is_some, get_or_else, Result, ok, failure, failure_retry, partial, busy,
}
use hypertube.Config.Preferences.{PreferencesSettings}
use hypertube.Config.Preferences.RoundTrip.{normal}
use hypertube.Search.Providers.{validate_proxy_config, validate_torznab_config}
use hypertube.Preferences.Runtime.{Runtime, to_port, apply_runtime, apply_ui_runtime}
use hypertube.Preferences.Credentials.{
  CredentialStoreOps, Credentials, restore_credential_set, save_task,
}

module _ {K : Type 0} (ops : CredentialStoreOps K) where
  -- A pending save that is ready: its result, and what its task has done.
  unfoldable pub complete_save :
      SaveTask → Result → PreferencesController K → Result × PreferencesController K
  unfolding save_task
  complete_save write_only file s = (file, s)
  complete_save (with_credentials api_key password) file s =
      let done = save_task ops api_key password file s.keyring in
      (
        done.result,
        record s {
          keyring = done.keyring;
          saves = if done.reached then s.pending_preferences ∷ s.saves else s.saves;
          credentials = get_or_else s.credentials done.credentials;
        },
      )

  unfoldable pub apply_pending :
      Bool → PreferencesSettings → PreferencesController K → Result × PreferencesController K
  unfolding apply_runtime apply_ui_runtime
  apply_pending ui_only p s =
      if ui_only
      then (ok, record s { runtime = apply_ui_runtime p s.runtime })
      else let (result, runtime) =
          apply_runtime p s.credentials.runtime_torznab s.credentials.runtime_proxy s.runtime in
        (result, record s { runtime = runtime })

  -- `commitPreferences`: by the round trip, the settings are then read as `normal` has them.
  abbrev pub commit_preferences :
      PreferencesSettings → PreferencesController K → PreferencesController K
  commit_preferences p s = record s { config = normal p }

  abbrev pub nothing_changed : Credentials → Credentials
  nothing_changed c = record c { torznab_changed = false; proxy_changed = false }

  -- The part of `finishSave` below a failure of the runtime.
  unfoldable pub roll_back :
      Bool → Result → PreferencesController K → Result × PreferencesController K
  unfolding apply_pending start_queued
  roll_back ui_only runtime s =
      let c = s.credentials in
      let changed = c.torznab_changed || c.proxy_changed in
      let restored = commit_preferences s.previous_preferences (record s {
        pending_credential_rollback = if changed then some c else s.pending_credential_rollback;
        credentials = record (nothing_changed c) {
          runtime_torznab = c.previous_torznab;
          runtime_proxy = get_or_else [] c.previous_proxy;
        };
      }) in
      let (again, applied) = apply_pending ui_only s.previous_preferences restored in
      let saved = record applied { saves = s.previous_preferences ∷ applied.saves } in
      if not again.success
      then (
        failure
            (msg "Preferences failed and runtime restoration was incomplete: " ++ runtime.message)
            partial,
        saved,
      )
      else (
        failure (msg "Preferences were rolled back: " ++ runtime.message) runtime.code,
        if is_some saved.pending_credential_rollback then saved else start_queued true saved,
      )

  unfoldable pub finish_save : Result → PreferencesController K → Result × PreferencesController K
  unfolding apply_pending start_queued roll_back
  finish_save saved s =
      if not saved.success
      then (saved, start_queued false s)
      else let ui_only = is_ui_save s.pending_save_kind in
        let (runtime, applied) =
          apply_pending ui_only s.pending_preferences
            (commit_preferences s.pending_preferences s) in
        if runtime.success
        then (
          ok,
          start_queued false (record applied { credentials = nothing_changed applied.credentials }),
        )
        else roll_back ui_only runtime applied

  -- What `pollSave` and `waitForSave` do with a save that is ready.
  unfoldable pub take_save :
      SaveTask → Result → PreferencesController K → Result × PreferencesController K
  unfolding complete_save finish_save
  take_save task file s =
      let (saved, done) = complete_save task file s in
      let (result, t) = finish_save saved (record done { pending_save = none }) in
      (
        result,
        record t {
          last_completed_save_kind = s.pending_save_kind;
          pending_save_kind = if is_some t.pending_save then t.pending_save_kind else no_save;
        },
      )

  -- The rollback that is pending restores the credentials of before.
  unfoldable pub run_rollback :
      Credentials → PreferencesController K → Result × PreferencesController K
  run_rollback c s =
      let (result, keyring) =
        restore_credential_set ops c.previous_torznab c.previous_proxy c.torznab_changed
          c.proxy_changed s.keyring in
      (result, record s { keyring = keyring; pending_credential_rollback = none })

  -- `ready` is nothing where the future that is looked at is not ready.
  unfoldable pub poll_save :
      Option Result → PreferencesController K → Option Result × PreferencesController K
  unfolding run_rollback take_save start_queued
  poll_save ready s = elim s.pending_credential_rollback [
    | some c ↦ elim ready [
      | none ↦ (none, s)
      | some _ ↦
          let t = (run_rollback c s).1 in
          (none, if is_some t.pending_save then t else start_queued true t)
    ]
    | none ↦ elim s.pending_save [
      | none ↦ (none, s)
      | some task ↦ elim ready [
        | none ↦ (none, s)
        | some file ↦ let (result, t) = take_save task file s in (some result, t)
      ]
    ]
  ]

  -- The end of `waitForSave`, for the rollback that the save has started.
  unfoldable pub finish_rollback :
      Result × PreferencesController K → Result × PreferencesController K
  unfolding run_rollback start_queued
  finish_rollback (result, t) = elim t.pending_credential_rollback [
    | none ↦ (result, t)
    | some c ↦
        let (rollback, u) = run_rollback c t in
        if not rollback.success
        then (
          failure
              (result.message
                ++ (msg "; credentials could not be fully restored: " ++ rollback.message))
              partial,
          u,
        )
        else (result, start_queued true u)
  ]

  unfoldable pub wait_for_save : Result → PreferencesController K → Result × PreferencesController K
  unfolding run_rollback take_save start_queued finish_rollback
  wait_for_save file s = elim s.pending_save [
    | none ↦ elim s.pending_credential_rollback [
      | none ↦ (ok, s)
      | some c ↦ let (rollback, t) = run_rollback c s in (rollback, start_queued true t)
    ]
    | some task ↦ finish_rollback (take_save task file s)
  ]
