-- ===== src/Preferences/Reapplied.antt =====
-- What the end of a save does to the runtime: `finishSave` of src/presentation/PreferencesController.cpp.
use hypertube.Common.{
  ◌≡◌, refl, ◌∙◌, ◌⊎◌, ap, subst, inl, inr, Bool, true, false, not, some, arith, if_cases, if_rule,
  is_some, if◌then◌else◌, ◌||◌, ◌∷◌, [], get_or_else, Result, ok, partial,
}
use hypertube.Config.Preferences.{PreferencesSettings}
use hypertube.Config.Preferences.RoundTrip.{normal}
use hypertube.Preferences.Runtime.{Runtime, apply_runtime, apply_ui_runtime}
use hypertube.Preferences.Credentials.{CredentialStoreOps, Credentials}
use hypertube.Preferences.Controller.{
  PreferencesController, start_queued, finish_save, roll_back, is_ui_save, begin_ui_state_save_now,
  apply_pending,
}

-- Settings applied with credentials: what the runtime answers, and what it is then.
abbrev pub applied : Bool → PreferencesSettings → Credentials → Runtime → Result × Runtime
applied ui_only p c r =
    if ui_only
    then (ok, apply_ui_runtime p r)
    else apply_runtime p c.runtime_torznab c.runtime_proxy r

-- With the credentials of before the save in use.
abbrev pub put_back : Credentials → Credentials
put_back c = record c {
  runtime_torznab = c.previous_torznab;
  runtime_proxy = get_or_else [] c.previous_proxy;
}

-- The runtime `r` after a save of `p` with the result `saved`, which comes to `result`: as before
-- where the save failed; with the new settings where they could be applied; and else with the old ones
-- and the old credentials, applied behind the attempt, and `Partial` where that fails too.
abbrev pub Ends :
    Bool
    → PreferencesSettings
    → PreferencesSettings
    → Credentials
    → Runtime
    → Result
    → Result
    → Runtime
    → Type 0
Ends ui_only p old c before saved result r =
    ((saved.success ≡ false) × (result ≡ saved) × (r ≡ before))
    ⊎ (((saved.success ≡ true)
          × (result.success ≡ true)
          × ((applied ui_only p c before).0.success ≡ true)
          × (r ≡ (applied ui_only p c before).1))
        ⊎ ((saved.success ≡ true)
            × (result.success ≡ false)
            × ((applied ui_only p c before).0.success ≡ false)
            × (r ≡ (applied ui_only old (put_back c) (applied ui_only p c before).1).1)
            × (((applied ui_only old (put_back c) (applied ui_only p c before).1).0.success ≡ true)
                ⊎ (result.code ≡ partial))))

pub Ends-subst :
    {ui_only ui_only' : Bool} {p p' old old' : PreferencesSettings} (c : Credentials)
    {before before' : Runtime} (saved result : Result) (r : Runtime)
    → ui_only ≡ ui_only'
    → p ≡ p'
    → old ≡ old'
    → before ≡ before'
    → Ends ui_only p old c before saved result r
    → Ends ui_only' p' old' c before' saved result r
Ends-subst {ui_only} {ui_only'} {p} {p'} {old} {old'} c {before} {before'} saved result r u e o b
      h =
    subst (λ v. Ends v p' old' c before' saved result r) u
      (subst (λ v. Ends ui_only v old' c before' saved result r) e
        (subst (λ v. Ends ui_only p v c before' saved result r) o
          (subst (λ v. Ends ui_only p old c v saved result r) b h)))

applied_same :
    (ui_only : Bool) (p p' : PreferencesSettings) (c c' : Credentials) (r r' : Runtime)
    → p ≡ p'
    → c ≡ c'
    → r ≡ r'
    → applied ui_only p (put_back c) r ≡ applied ui_only p' (put_back c') r'
applied_same ui_only p p' c c' r r' e f g = cc

module _ {K : Type 0} where
  pub start_queued_runtime :
      (keep : Bool) (s : PreferencesController K) → (start_queued keep s).runtime ≡ s.runtime
  unfolding start_queued begin_ui_state_save_now
  start_queued_runtime keep s = ground arith

module _ {K : Type 0} (ops : CredentialStoreOps K) where
  apply_pending_lem :
      (ui_only : Bool) (p : PreferencesSettings) (s : PreferencesController K)
      → ((apply_pending ops ui_only p s).0 ≡ (applied ui_only p s.credentials s.runtime).0)
        × ((apply_pending ops ui_only p s).1.runtime
            ≡ (applied ui_only p s.credentials s.runtime).1)
  unfolding apply_pending
  apply_pending_lem true p s = (refl, refl)
  apply_pending_lem false p s = (refl, refl)

  apply_pending_same :
      (ui_only : Bool) (p : PreferencesSettings) (s : PreferencesController K)
      → ((apply_pending ops ui_only p s).1.credentials ≡ s.credentials)
        × ((apply_pending ops ui_only p s).1.previous_preferences ≡ s.previous_preferences)
  unfolding apply_pending
  apply_pending_same true p s = (refl, refl)
  apply_pending_same false p s = (refl, refl)

  -- A rollback ends as a failure, with the old settings applied again.
  abbrev RolledBack : Bool → PreferencesController K → Result × PreferencesController K → Type 0
  RolledBack ui_only s t =
      let again = applied ui_only s.previous_preferences (put_back s.credentials) s.runtime in
      (t.0.success ≡ false)
      × (t.1.runtime ≡ again.1)
      × ((again.0.success ≡ true) ⊎ (t.0.code ≡ partial))

  roll_back-RolledBack :
      (ui_only : Bool) (r : Result) (s : PreferencesController K)
      → RolledBack ui_only s (roll_back ops ui_only r s)
  unfolding roll_back
  roll_back-RolledBack ui_only r s =
      let restored = record s {
        config = normal s.previous_preferences;
        pending_credential_rollback =
            if s.credentials.torznab_changed || s.credentials.proxy_changed
            then some s.credentials
            else s.pending_credential_rollback;
        credentials = record s.credentials {
          torznab_changed = false;
          proxy_changed = false;
          runtime_torznab = s.credentials.previous_torznab;
          runtime_proxy = get_or_else [] s.credentials.previous_proxy;
        };
      } in
      let run = apply_pending ops ui_only s.previous_preferences restored in
      let saved = record run.1 { saves = s.previous_preferences ∷ run.1.saves } in
      let (same, there) = apply_pending_lem ui_only s.previous_preferences restored in
      if_cases {A = Result × PreferencesController K} (RolledBack ui_only s) (not run.0.success) _ _
        (λ _. (refl, there, inr refl))
        (λ worked. (
          refl,
          if_rule {A = PreferencesController K}
              (λ t.
                t.runtime
                ≡ (applied ui_only s.previous_preferences (put_back s.credentials) s.runtime).1)
              (is_some saved.pending_credential_rollback) _ _ there
              (start_queued_runtime true saved ∙ there),
          inl (ground (arith, same)),
        ))

  pub finish_save-Ends :
      (saved : Result) (s : PreferencesController K)
      → Ends
          (is_ui_save s.pending_save_kind)
          s.pending_preferences
          s.previous_preferences
          s.credentials
          s.runtime
          saved
          (finish_save ops saved s).0
          (finish_save ops saved s).1.runtime
  unfolding finish_save
  finish_save-Ends saved s =
      let ui_only = is_ui_save s.pending_save_kind in
      let committed = record s { config = normal s.pending_preferences } in
      let run = apply_pending ops ui_only s.pending_preferences committed in
      let (same, there) = apply_pending_lem ui_only s.pending_preferences committed in
      let (c, old) = apply_pending_same ui_only s.pending_preferences committed in
      let P = λ (t : Result × PreferencesController K).
        Ends ui_only s.pending_preferences s.previous_preferences s.credentials s.runtime saved t.0
          t.1.runtime in
      if_cases P (not saved.success) _ _
        (λ failed. inl (ground arith, refl, start_queued_runtime false s))
        λ good.
          if_cases P run.0.success _ _
            (λ fine. inr (
              inl (ground arith, refl, ground (arith, same), start_queued_runtime false _ ∙ there)))
            λ bad.
              let (fails, back, told) = roll_back-RolledBack ui_only run.0 run.1 in
              let again = applied_same ui_only _ _ _ _ _ _ old c there in
              inr (
                inr (
                  ground arith,
                  fails,
                  ground (arith, same),
                  back ∙ ap (λ (x : Result × Runtime). x.1) again,
                  subst
                      (λ (x : Result × Runtime).
                        (x.0.success ≡ true)
                        ⊎ ((roll_back ops ui_only run.0 run.1).0.code ≡ partial))
                      again told,
                ))
