-- ===== src/Preferences/Atomic.antt =====
-- What a save of the preferences leaves of the settings and of the runtime, where it succeeds and where
-- it fails. Of the credential store and the file nothing is said here.
use hypertube.Common.{
  ◌≡◌, refl, sym, ap, ◌∙◌, Bool, true, false, not, Option, none, some, arith, Result, is_some,
  if_cases, if_rule, option_rule, Bool-cases, inl, inr, if◌then◌else◌, ◌||◌, [], ◌∷◌, get_or_else,
}
use mathlib.Core.Bool.{false≢true}
use hypertube.Config.Preferences.{PreferencesSettings}
use hypertube.Config.Preferences.RoundTrip.{normal, normal_idem}
use hypertube.Preferences.Credentials.{CredentialStoreOps, Credentials}
use hypertube.Preferences.Reapplied.{Ends, Ends-subst, finish_save-Ends, start_queued_runtime}
use hypertube.Preferences.Controller.{
  PreferencesController, SaveTask, write_only, with_credentials, start_queued, complete_save,
  finish_save, roll_back, take_save, poll_save, is_ui_save, begin_ui_state_save_now, apply_pending,
  run_rollback,
}

module _ {K : Type 0} where
  -- What starting the queued state leaves alone.
  pub start_queued_config :
      (keep : Bool) (s : PreferencesController K) → (start_queued keep s).config ≡ s.config
  unfolding start_queued begin_ui_state_save_now
  start_queued_config keep s = ground arith

  -- What stands throughout: at most one of the two futures, and the settings to go back to are those
  -- that are in force, as they are read.
  pub record Inv (s : PreferencesController K) : Type 0 where
    pub one : is_some s.pending_save ≡ true → is_some s.pending_credential_rollback ≡ false
    pub held : is_some s.pending_save ≡ true → s.previous_preferences ≡ s.config
    pub normal_config : normal s.config ≡ s.config

  pub start_queued-Inv :
      (keep : Bool) (s : PreferencesController K) → Inv s → Inv (start_queued keep s)
  unfolding start_queued begin_ui_state_save_now
  start_queued-Inv keep s v = record {
    one = λ h. ground (arith, v.one);
    held = λ h. ground (arith, v.held);
    normal_config =
        ap normal (start_queued_config keep s) ∙ v.normal_config ∙ sym (start_queued_config keep s);
  }

  -- The settings that a save leaves: the new ones with a success, the old ones with a failure.
  abbrev pub Settled : PreferencesController K → Result → PreferencesController K → Type 0
  Settled s r t =
      (r.success ≡ true → t.config ≡ normal s.pending_preferences)
      × (r.success ≡ false → t.config ≡ s.config)

  -- The settings that a step leaves are as they are read, and the step leaves no pending save or one
  -- that would go back to them.
  abbrev Steady : PreferencesController K → Type 0
  Steady t =
      (is_some t.pending_save ≡ true → is_some t.pending_credential_rollback ≡ false)
      × (is_some t.pending_save ≡ true → t.previous_preferences ≡ t.config)

module _ {K : Type 0} (ops : CredentialStoreOps K) where
  -- The settings and the runtime behind the save of a task, with the credentials that the task leaves.
  abbrev pub Done :
      SaveTask → Result → PreferencesController K → Result → PreferencesController K → Type 0
  Done task file s r t =
      let saved = complete_save ops task file s in
      Settled s r t
      × Ends (is_ui_save s.pending_save_kind) s.pending_preferences s.config saved.1.credentials
          s.runtime saved.0 r t.runtime

  -- What a poll comes to: with a report, the end of the pending save.
  abbrev pub Reported :
      Option Result → PreferencesController K → Option Result × PreferencesController K → Type 0
  Reported ready s (none, t) = (t.config ≡ s.config) × (t.runtime ≡ s.runtime)
  Reported ready s (some r, t) =
      (task : SaveTask) × (file : Result) × (s.pending_save ≡ some task)
      × (ready ≡ some file)
      × Done task file s r t

  complete_save_config :
      (task : SaveTask) (file : Result) (s : PreferencesController K)
      → ((complete_save ops task file s).1.config ≡ s.config)
        × ((complete_save ops task file s).1.previous_preferences ≡ s.previous_preferences)
        × ((complete_save ops task file s).1.pending_preferences ≡ s.pending_preferences)
        × ((complete_save ops task file s).1.pending_credential_rollback
            ≡ s.pending_credential_rollback)
  unfolding complete_save
  complete_save_config (with_credentials a p) file s = (refl, refl, refl, refl)
  complete_save_config write_only file s = (refl, refl, refl, refl)

  apply_pending_config :
      (ui_only : Bool) (p : PreferencesSettings) (s : PreferencesController K)
      → (apply_pending ops ui_only p s).1.config ≡ s.config
  unfolding apply_pending
  apply_pending_config ui_only p s = ground arith

  start_queued-Steady :
      (keep : Bool) (s : PreferencesController K)
      → is_some s.pending_save ≡ false
      → Steady (start_queued keep s)
  unfolding start_queued begin_ui_state_save_now
  start_queued-Steady keep s h = (λ e. ground arith, λ e. ground arith)

  apply_pending_pending :
      (ui_only : Bool) (p : PreferencesSettings) (s : PreferencesController K)
      → (apply_pending ops ui_only p s).1.pending_save ≡ s.pending_save
  unfolding apply_pending
  apply_pending_pending ui_only p s = ground arith

  apply_pending_previous :
      (ui_only : Bool) (p : PreferencesSettings) (s : PreferencesController K)
      → (apply_pending ops ui_only p s).1.previous_preferences ≡ s.previous_preferences
  unfolding apply_pending
  apply_pending_previous ui_only p s = ground arith

  roll_back_lem :
      (ui_only : Bool) (r : Result) (s : PreferencesController K)
      → s.pending_save ≡ none
      → ((roll_back ops ui_only r s).0.success ≡ false)
        × ((roll_back ops ui_only r s).1.config ≡ normal s.previous_preferences)
        × Steady (roll_back ops ui_only r s).1
  unfolding roll_back
  roll_back_lem ui_only r s idle =
      let restored = record s {
        config = normal s.previous_preferences;
        pending_credential_rollback =
            if s.credentials.torznab_changed || s.credentials.proxy_changed
            then some s.credentials
            else s.pending_credential_rollback;
        credentials = record s.credentials {
          torznab_changed = false;
          proxy_changed = false;
          runtime_torznab = s.credentials.previous_torznab;
          runtime_proxy = get_or_else [] s.credentials.previous_proxy;
        };
      } in
      let applied = (apply_pending ops ui_only s.previous_preferences restored).1 in
      let saved = record applied { saves = s.previous_preferences ∷ applied.saves } in
      let kept : saved.config ≡ normal s.previous_preferences =
        apply_pending_config ui_only s.previous_preferences restored in
      let still : is_some saved.pending_save ≡ false =
        ap is_some (apply_pending_pending ui_only s.previous_preferences restored ∙ idle) in
      if_cases {A = Result × PreferencesController K}
        (λ t. (t.0.success ≡ false) × (t.1.config ≡ normal s.previous_preferences) × Steady t.1)
        (not (apply_pending ops ui_only s.previous_preferences restored).0.success) _ _
        (λ _. (refl, kept, (λ e. ground arith, λ e. ground arith)))
        (λ _. (
          refl,
          if_rule {A = PreferencesController K} (λ t. t.config ≡ normal s.previous_preferences)
              (is_some saved.pending_credential_rollback) _ _ kept
              (start_queued_config true saved ∙ kept),
          if_rule Steady (is_some saved.pending_credential_rollback) _ _
              (λ e. ground arith, λ e. ground arith) (start_queued-Steady true saved still),
        ))

  finish_save_lem :
      (r : Result) (s : PreferencesController K)
      → s.pending_save ≡ none
      → s.previous_preferences ≡ s.config
      → normal s.config ≡ s.config
      → Settled s (finish_save ops r s).0 (finish_save ops r s).1 × Steady (finish_save ops r s).1
  unfolding finish_save
  finish_save_lem r s idle held normal_config =
      let ui_only = is_ui_save s.pending_save_kind in
      let committed = record s { config = normal s.pending_preferences } in
      let run = apply_pending ops ui_only s.pending_preferences committed in
      let still : run.1.pending_save ≡ none =
        apply_pending_pending ui_only s.pending_preferences committed ∙ idle in
      if_cases {A = Result × PreferencesController K} (λ t. Settled s t.0 t.1 × Steady t.1)
        (not r.success) _ _
        (λ failed. (
          (λ e. absurd (false≢true (ground arith)), λ _. start_queued_config false s),
          start_queued-Steady false s (ap is_some idle),
        ))
        λ _.
          if_cases {A = Result × PreferencesController K} (λ t. Settled s t.0 t.1 × Steady t.1)
            run.0.success _ _
            (λ _. (
              (
                λ _.
                    start_queued_config false _
                    ∙ apply_pending_config ui_only s.pending_preferences committed,
                λ e. absurd (false≢true (sym e)),
              ),
              start_queued-Steady false _ (ap is_some still),
            ))
            λ _.
              let (failed, back, steady) = roll_back_lem ui_only run.0 run.1 still in
              (
                (
                  λ e. absurd (false≢true (sym failed ∙ e)),
                  λ _.
                      back
                      ∙ ap normal
                          (apply_pending_previous ui_only s.pending_preferences committed ∙ held)
                      ∙ normal_config,
                ),
                steady,
              )

  take_save_lem :
      (task : SaveTask) (file : Result) (s : PreferencesController K)
      → s.pending_save ≡ some task
      → Inv s
      → Settled s (take_save ops task file s).0 (take_save ops task file s).1
        × Steady (take_save ops task file s).1
  unfolding take_save
  take_save_lem task file s pending v =
      let (config, previous, prefs, rollback) = complete_save_config task file s in
      let done = record (complete_save ops task file s).1 { pending_save = none } in
      let ((succeeds, fails), steady) =
        finish_save_lem (complete_save ops task file s).0 done refl
          (previous ∙ v.held (ap is_some pending) ∙ sym config)
          (ap normal config ∙ v.normal_config ∙ sym config) in
      ((λ e. succeeds e ∙ ap normal prefs, λ e. fails e ∙ config), steady)

  Settled-normal :
      (s t : PreferencesController K) (r : Result)
      → Inv s
      → Settled s r t
      → normal t.config ≡ t.config
  Settled-normal s t r v (succeeds, fails) = elim (Bool-cases r.success) [
    | inl e ↦ ap normal (succeeds e) ∙ normal_idem s.pending_preferences ∙ sym (succeeds e)
    | inr e ↦ ap normal (fails e) ∙ v.normal_config ∙ sym (fails e)
  ]

  complete_save_runtime :
      (task : SaveTask) (file : Result) (s : PreferencesController K)
      → ((complete_save ops task file s).1.runtime ≡ s.runtime)
        × ((complete_save ops task file s).1.pending_save_kind ≡ s.pending_save_kind)
  unfolding complete_save
  complete_save_runtime (with_credentials a p) file s = (refl, refl)
  complete_save_runtime write_only file s = (refl, refl)

  take_save-Done :
      (task : SaveTask) (file : Result) (s : PreferencesController K)
      → s.pending_save ≡ some task
      → Inv s
      → Done task file s (take_save ops task file s).0 (take_save ops task file s).1
  unfolding take_save
  take_save-Done task file s pending v =
      let (config, previous, prefs, rollback) = complete_save_config task file s in
      let (runtime, kind) = complete_save_runtime task file s in
      let saved = complete_save ops task file s in
      let done = record saved.1 { pending_save = none } in
      let (settled, steady) = take_save_lem task file s pending v in
      (
        settled,
        Ends-subst saved.1.credentials saved.0 _ _ (ap is_ui_save kind) prefs
            (previous ∙ v.held (ap is_some pending)) runtime (finish_save-Ends ops saved.0 done),
      )

  pub take_save-Inv :
      (task : SaveTask) (file : Result) (s : PreferencesController K)
      → s.pending_save ≡ some task
      → Inv s
      → Inv (take_save ops task file s).1
  take_save-Inv task file s pending v =
      let (settled, (one, held)) = take_save_lem task file s pending v in
      record {
        one = one;
        held = held;
        normal_config =
            Settled-normal s (take_save ops task file s).1 (take_save ops task file s).0 v settled;
      }

  pub run_rollback-Inv :
      (c : Credentials) (s : PreferencesController K) → Inv s → Inv (run_rollback ops c s).1
  unfolding run_rollback
  run_rollback-Inv c s v = record {
    one = λ _. refl;
    held = v.held;
    normal_config = v.normal_config;
  }

  -- In a state with the invariant, a poll that reports nothing changes neither the settings that the
  -- manager holds nor the runtime. One that reports the end of the pending save leaves the new settings,
  -- as they are read, with a success, and the settings of before with a failure. The runtime is as it
  -- was where the save itself failed; has the new settings applied to it with the credentials that the
  -- save left, where that was possible; and otherwise, when the result is a failure, has the settings of
  -- before applied to it again with the credentials of before, and where this fails too the code of the
  -- result is `Partial`.
  pub poll_save-Settled :
      (ready : Option Result) (s : PreferencesController K)
      → Inv s
      → Reported ready s (poll_save ops ready s)
  unfolding poll_save run_rollback
  poll_save-Settled ready s v =
      let P = Reported ready s in
      option_rule P s.pending_credential_rollback _ _
        (λ _.
          option_rule P s.pending_save _ _ (λ _. (refl, refl))
            λ task pending.
              option_rule P ready _ _ (λ _. (refl, refl))
                λ file there. (task, file, pending, there, take_save-Done task file s pending v))
        λ c _.
          option_rule P ready _ _ (λ _. (refl, refl))
            λ _ _.
              if_rule {A = PreferencesController K}
                (λ t. (t.config ≡ s.config) × (t.runtime ≡ s.runtime)) (is_some s.pending_save) _ _
                (refl, refl) (start_queued_config true _, start_queued_runtime true _)
