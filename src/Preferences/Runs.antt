-- ===== src/Preferences/Runs.antt =====
-- Runs of the controller of the preferences.
use hypertube.Common.{
  refl, true, not, Option, arith, Result, is_some, if_cases, if_rule, option_rule, List, Text, ◌||◌,
  [], ◌∷◌,
}
use hypertube.Config.Preferences.{PreferencesSettings}
use hypertube.Preferences.Credentials.{CredentialStoreOps}
use hypertube.Preferences.Controller.{
  PreferencesController, take_save, poll_save, wait_for_save, validate_preferences, begin_save,
  begin_ui_state_save, begin_ui_state_save_now, run_rollback, finish_rollback,
}
use hypertube.Preferences.Atomic.{Inv, start_queued-Inv, take_save-Inv, run_rollback-Inv}

pub data ControllerEvent : Type 0 where
  save : PreferencesSettings → Option Text → Option Text → ControllerEvent
  save_ui : PreferencesSettings → ControllerEvent
  poll : Option Result → ControllerEvent
  wait : Result → ControllerEvent

module _ {K : Type 0} (ops : CredentialStoreOps K) where
  unfoldable pub controller_step :
      ControllerEvent → PreferencesController K → PreferencesController K
  controller_step (save p api_key password) s = (begin_save p api_key password s).1
  controller_step (save_ui p) s = (begin_ui_state_save p s).1
  controller_step (poll ready) s = (poll_save ops ready s).1
  controller_step (wait file) s = (wait_for_save ops file s).1

  unfoldable pub controller_run :
      List ControllerEvent → PreferencesController K → PreferencesController K
  controller_run [] s = s
  controller_run (e ∷ es) s = controller_run es (controller_step e s)

  begin_save-Inv :
      (p : PreferencesSettings) (a w : Option Text) (s : PreferencesController K)
      → Inv s
      → Inv (begin_save p a w s).1
  unfolding begin_save
  begin_save-Inv p a w s v =
      if_cases {A = Result × PreferencesController K} (λ t. Inv t.1)
        (is_some s.pending_save || is_some s.pending_credential_rollback) _ _ (λ _. v)
        λ idle.
          if_rule {A = Result × PreferencesController K} (λ t. Inv t.1)
            (not (validate_preferences p).success) _ _ v
            record { one = λ _. ground arith; held = λ _. refl; normal_config = v.normal_config }

  begin_ui_state_save-Inv :
      (p : PreferencesSettings) (s : PreferencesController K)
      → Inv s
      → Inv (begin_ui_state_save p s).1
  unfolding begin_ui_state_save begin_ui_state_save_now
  begin_ui_state_save-Inv p s v =
      if_cases {A = Result × PreferencesController K} (λ t. Inv t.1)
        (is_some s.pending_save || is_some s.pending_credential_rollback) _ _
        (λ _. record { one = v.one; held = v.held; normal_config = v.normal_config })
        λ idle.
          if_rule {A = Result × PreferencesController K} (λ t. Inv t.1)
            (is_some s.pending_save || is_some s.pending_credential_rollback) _ _ v
            record { one = λ _. ground arith; held = λ _. refl; normal_config = v.normal_config }

  poll_save-Inv :
      (ready : Option Result) (s : PreferencesController K) → Inv s → Inv (poll_save ops ready s).1
  unfolding poll_save
  poll_save-Inv ready s v =
      let P = λ (t : Option Result × PreferencesController K). Inv t.1 in
      option_rule P s.pending_credential_rollback _ _
        (λ _.
          option_rule P s.pending_save _ _ (λ _. v)
            λ task pending.
              option_rule P ready _ _ (λ _. v) λ file _. take_save-Inv ops task file s pending v)
        λ c _.
          option_rule P ready _ _ (λ _. v)
            λ _ _.
              let v' = run_rollback-Inv ops c s v in
              if_rule Inv (is_some (run_rollback ops c s).1.pending_save) _ _ v'
                (start_queued-Inv true _ v')

  finish_rollback-Inv :
      (w : Result × PreferencesController K) → Inv w.1 → Inv (finish_rollback ops w).1
  unfolding finish_rollback
  finish_rollback-Inv w v =
      let P = λ (t : Result × PreferencesController K). Inv t.1 in
      option_rule P w.1.pending_credential_rollback _ _ (λ _. v)
        λ c _.
          let v' = run_rollback-Inv ops c w.1 v in
          if_rule P (not (run_rollback ops c w.1).0.success) _ _ v' (start_queued-Inv true _ v')

  wait_for_save-Inv :
      (file : Result) (s : PreferencesController K) → Inv s → Inv (wait_for_save ops file s).1
  unfolding wait_for_save
  wait_for_save-Inv file s v =
      let P = λ (t : Result × PreferencesController K). Inv t.1 in
      option_rule P s.pending_save _ _
        (λ _.
          option_rule P s.pending_credential_rollback _ _ (λ _. v)
            λ c _. start_queued-Inv true _ (run_rollback-Inv ops c s v))
        λ task pending.
          finish_rollback-Inv (take_save ops task file s) (take_save-Inv ops task file s pending v)

  -- Calls of the controller, in any order, keep the invariant: no save is pending beside a rollback of
  -- credentials, a pending save would go back to the settings in force, and these are as they are read.
  pub controller_run-Inv :
      (es : List ControllerEvent) (s : PreferencesController K) → Inv s → Inv (controller_run es s)
  unfolding controller_step controller_run
  controller_run-Inv [] s v = v
  controller_run-Inv (save p a w ∷ es) s v = controller_run-Inv es _ (begin_save-Inv p a w s v)
  controller_run-Inv (save_ui p ∷ es) s v = controller_run-Inv es _ (begin_ui_state_save-Inv p s v)
  controller_run-Inv (poll ready ∷ es) s v = controller_run-Inv es _ (poll_save-Inv ready s v)
  controller_run-Inv (wait file ∷ es) s v = controller_run-Inv es _ (wait_for_save-Inv file s v)
