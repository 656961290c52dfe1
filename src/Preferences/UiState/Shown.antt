-- ===== src/Preferences/UiState/Shown.antt =====
-- What is on display while a layout waits to be saved.
use hypertube.Common.{
  ℕ, ◌≡◌, refl, Bool, not, ◌&&◌, List, [], ◌∷◌, Option, none, some, arith, is_some, if_rule,
  option_rule, Result, ok, leb, if◌then◌else◌,
}
use hypertube.Preferences.Credentials.{CredentialStoreOps}
use hypertube.Preferences.Controller.{
  PreferencesController, is_ui_save, wait_for_save, begin_ui_state_save, poll_save,
}
use hypertube.Preferences.UiState.{
  UiStateSnapshot, UiStateController, request, same_snapshot, rollback, start_pending_save,
  take_result, poll_waiting, poll_ui_state, flush_round, ui_step, ui_run, requested, polled,
  flushed, called, UiEvent, merge_into_preferences,
}

-- The newest state: the one that waits, else the one that is being saved, else the committed one.
abbrev pub newest : UiStateController → UiStateSnapshot
newest u = elim u.pending [
  | some state ↦ state
  | none ↦ elim u.in_flight [ some state ↦ state | none ↦ u.committed ]
]

-- The newest state is on display, and a save is waited for exactly while a state is in flight.
pub record Shows (u : UiStateController) : Type 0 where
  pub shown : u.preview ≡ newest u
  pub waits : u.waiting_for_save ≡ is_some u.in_flight

request-Shows :
    (now : ℕ) (state : UiStateSnapshot) (u : UiStateController)
    → Shows u
    → Shows (request now state u)
unfolding request
request-Shows now state u v =
    if_rule Shows
      (not (is_some u.pending) && (not (is_some u.in_flight) && same_snapshot state u.committed)) _
      _ v record { shown = refl; waits = v.waits }

rollback-Shows : (r : Result) (u : UiStateController) → Shows (rollback r u)
unfolding rollback
rollback-Shows r u = record { shown = refl; waits = refl }

take_result-Shows :
    (r : Result) (ui_save : Bool) (u : UiStateController)
    → Shows u
    → Shows (take_result r ui_save u)
unfolding take_result
take_result-Shows r ui_save u v =
    if_rule Shows ui_save _ _
      (if_rule Shows r.success _ _ record { shown = ground (arith, v.shown); waits = refl }
        (rollback-Shows r u))
      (if_rule Shows (not r.success) _ _ record { shown = v.shown; waits = v.waits } v)

module _ {K : Type 0} where
  pub start_pending_save-Shows :
      (u : UiStateController) (c : PreferencesController K)
      → Shows u
      → Shows (start_pending_save u c).1
  unfolding start_pending_save
  start_pending_save-Shows u c v =
      option_rule {C = Result × UiStateController × PreferencesController K} (λ t. Shows t.1)
        u.pending _ _ (λ _. v)
        λ state there.
          if_rule {A = Result × UiStateController × PreferencesController K} (λ t. Shows t.1)
            u.waiting_for_save _ _ v
            (if_rule {A = Result × UiStateController × PreferencesController K} (λ t. Shows t.1)
              (not (begin_ui_state_save (merge_into_preferences state c.config) c).0.success) _ _
              (rollback-Shows (begin_ui_state_save (merge_into_preferences state c.config) c).0
                (record u { in_flight = some state; pending = none }))
              record { shown = ground (arith, v.shown); waits = refl })

module _ {K : Type 0} (ops : CredentialStoreOps K) where
  poll_waiting-Shows :
      (ready : Option Result) (u : UiStateController) (c : PreferencesController K)
      → Shows u
      → Shows (poll_waiting ops ready u c).0
  unfolding poll_waiting
  poll_waiting-Shows ready u c v =
      if_rule {A = UiStateController × PreferencesController K} (λ t. Shows t.0)
        (not u.waiting_for_save) _ _ v
        (option_rule {C = UiStateController × PreferencesController K} (λ t. Shows t.0)
          (poll_save ops ready c).0 _ _ (λ _. v)
          λ r _.
            take_result-Shows r (is_ui_save (poll_save ops ready c).1.last_completed_save_kind) u v)

  poll_ui_state-Shows :
      (now : ℕ) (ready : Option Result) (u : UiStateController) (c : PreferencesController K)
      → Shows u
      → Shows (poll_ui_state ops now ready u c).0
  unfolding poll_ui_state
  poll_ui_state-Shows now ready u c v =
      if_rule {A = UiStateController × PreferencesController K} (λ t. Shows t.0)
        (not (is_some u.pending && (not u.waiting_for_save && leb u.deadline now))) _ _
        (poll_waiting-Shows ready u c v)
        (if_rule {A = UiStateController × PreferencesController K} (λ t. Shows t.0)
          (not (start_pending_save u c).0.success) _ _ (start_pending_save-Shows u c v)
          (poll_waiting-Shows ready _ _ (start_pending_save-Shows u c v)))

  flush_round-Shows :
      (file failure : Result) (u : UiStateController) (c : PreferencesController K)
      → Shows u
      → Shows (flush_round ops file failure u c).2
  unfolding flush_round
  flush_round-Shows file failure u c v =
      let start =
        if is_some u.pending && not u.waiting_for_save
        then start_pending_save u c
        else (ok, u, c) in
      let v' =
        if_rule {A = Result × UiStateController × PreferencesController K} (λ t. Shows t.1)
          (is_some u.pending && not u.waiting_for_save) _ _ (start_pending_save-Shows u c v) v in
      if_rule {A = Option Result × Result × UiStateController × PreferencesController K}
        (λ t. Shows t.2) (not start.0.success) _ _ v'
        (take_result-Shows (wait_for_save ops file start.2).0
          (is_ui_save (wait_for_save ops file start.2).1.last_completed_save_kind) start.1 v')

  -- From a state of which the following holds, and along any calls of either controller, the newest layout is
  -- on display: the one that waits, else the one that is being saved, else the committed one; and a
  -- save is waited for exactly while one is being saved.
  pub ui_run-Shows :
      (es : List UiEvent) (u : UiStateController) (c : PreferencesController K)
      → Shows u
      → Shows (ui_run ops es (u, c)).0
  unfolding ui_run ui_step
  ui_run-Shows [] u c v = v
  ui_run-Shows (requested now state ∷ es) u c v = ui_run-Shows es _ c (request-Shows now state u v)
  ui_run-Shows (polled now ready ∷ es) u c v =
      ui_run-Shows es _ _ (poll_ui_state-Shows now ready u c v)
  ui_run-Shows (flushed file failure ∷ es) u c v =
      ui_run-Shows es _ _ (flush_round-Shows file failure u c v)
  ui_run-Shows (called e ∷ es) u c v = ui_run-Shows es u _ v
