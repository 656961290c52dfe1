-- ===== src/Preferences/UiState.antt =====
-- src/presentation/UiStateController.cpp: the layout is shown at once and saved behind a delay.
pub mod Shown
pub mod Stranded
use hypertube.Common.{
  ℕ, ℤ, int_beq, zero, suc, ◌+◌, Bool, true, false, not, ◌&&◌, ◌||◌, List, [], ◌∷◌, Option, none,
  some, leb, is_some, if◌then◌else◌, Result, ok,
}
use hypertube.Config.Preferences.{PreferencesSettings, UiLayout}
use hypertube.Preferences.Credentials.{CredentialStoreOps}
use hypertube.Preferences.Runs.{ControllerEvent, controller_step}
use hypertube.Preferences.Controller.{
  PreferencesController, is_ui_save, begin_ui_state_save, poll_save, wait_for_save,
}

pub record UiStateSnapshot : Type 0 where
  pub theme : ℤ
  pub layout : UiLayout

-- `preview` is what the callback was given last, and `errors` what the other was called with, the
-- last call first. Times are in milliseconds.
pub record UiStateController : Type 0 where
  pub committed : UiStateSnapshot
  pub pending : Option UiStateSnapshot
  pub in_flight : Option UiStateSnapshot
  pub deadline : ℕ
  pub waiting_for_save : Bool
  pub preview : UiStateSnapshot
  pub errors : List Result

abbrev pub bool_beq : Bool → Bool → Bool
bool_beq a b = if a then b else not b

-- The comparison with the committed state.
pub same_snapshot : UiStateSnapshot → UiStateSnapshot → Bool
same_snapshot a b =
    int_beq a.theme b.theme
    && (int_beq a.layout.sidebar_width b.layout.sidebar_width
        && (int_beq a.layout.bottom_panel_height b.layout.bottom_panel_height
            && (bool_beq a.layout.sidebar_collapsed b.layout.sidebar_collapsed
                && (int_beq a.layout.selected_main_tab b.layout.selected_main_tab
                    && int_beq a.layout.selected_details_tab b.layout.selected_details_tab))))

abbrev pub debounce : ℕ
debounce = 400

unfoldable pub request : ℕ → UiStateSnapshot → UiStateController → UiStateController
unfolding same_snapshot
request now state u =
    if not (is_some u.pending) && (not (is_some u.in_flight) && same_snapshot state u.committed)
    then u
    else record u { preview = state; pending = some state; deadline = now + debounce }

abbrev pub merge_into_preferences : UiStateSnapshot → PreferencesSettings → PreferencesSettings
merge_into_preferences state p = record p { theme = state.theme; ui = state.layout }

unfoldable pub rollback : Result → UiStateController → UiStateController
rollback result u = record u {
  pending = none;
  in_flight = none;
  waiting_for_save = false;
  preview = u.committed;
  errors = result ∷ u.errors;
}

-- A save of the state in flight has succeeded.
abbrev pub commit_in_flight : UiStateController → UiStateController
commit_in_flight u = record u {
  committed = elim u.in_flight [ none ↦ u.committed | some state ↦ state ];
  in_flight = none;
  waiting_for_save = false;
}

-- What is done with the result of a save.
unfoldable pub take_result : Result → Bool → UiStateController → UiStateController
unfolding rollback
take_result result ui_save u =
    if ui_save
    then (if result.success then commit_in_flight u else rollback result u)
    else if not result.success
    then record u { errors = result ∷ u.errors }
    else u

module _ {K : Type 0} where
  unfoldable pub start_pending_save :
      UiStateController
      → PreferencesController K
      → Result × UiStateController × PreferencesController K
  unfolding rollback begin_ui_state_save
  start_pending_save u c = elim u.pending [
    | none ↦ (ok, u, c)
    | some state ↦
        if u.waiting_for_save
        then (ok, u, c)
        else let moved = record u { in_flight = some state; pending = none } in
          let (began, c') = begin_ui_state_save (merge_into_preferences state c.config) c in
          if not began.success
          then (began, rollback began moved, c')
          else (ok, record moved { waiting_for_save = true }, c')
  ]

module _ {K : Type 0} (ops : CredentialStoreOps K) where
  -- The second half of `poll`.
  unfoldable pub poll_waiting :
      Option Result
      → UiStateController
      → PreferencesController K
      → UiStateController × PreferencesController K
  unfolding poll_save take_result
  poll_waiting ready u c =
      if not u.waiting_for_save
      then (u, c)
      else let (result, c') = poll_save ops ready c in
        elim result [
          | none ↦ (u, c')
          | some r ↦ (take_result r (is_ui_save c'.last_completed_save_kind) u, c')
        ]

  unfoldable pub poll_ui_state :
      ℕ
      → Option Result
      → UiStateController
      → PreferencesController K
      → UiStateController × PreferencesController K
  unfolding start_pending_save poll_waiting
  poll_ui_state now ready u c =
      if not (is_some u.pending && (not u.waiting_for_save && leb u.deadline now))
      then poll_waiting ready u c
      else let (began, u', c') = start_pending_save u c in
        if not began.success then (u', c') else poll_waiting ready u' c'

  -- One round of the loop of `flush`: what it returns, if it does, and the first failure so far.
  unfoldable pub flush_round :
      Result
      → Result
      → UiStateController
      → PreferencesController K
      → Option Result × Result × UiStateController × PreferencesController K
  unfolding start_pending_save wait_for_save take_result
  flush_round file first_failure u c =
      let (began, u', c') =
        if is_some u.pending && not u.waiting_for_save
        then start_pending_save u c
        else (ok, u, c) in
      if not began.success
      then (some began, first_failure, u', c')
      else let (result, c'') = wait_for_save ops file c' in
        let failure' =
          if not result.success && first_failure.success then result else first_failure in
        let ui_save = is_ui_save c''.last_completed_save_kind in
        (
          if ui_save && not result.success then some result else none,
          failure',
          take_result result ui_save u',
          c'',
        )

  -- `files` are the results of the writes, by the fuel that is left; there is no answer where the loop
  -- does not end within the fuel.
  unfoldable pub flush_loop :
      ℕ
      → (ℕ → Result)
      → Result
      → UiStateController
      → PreferencesController K
      → Option (Result × UiStateController × PreferencesController K)
  unfolding flush_round
  flush_loop zero files first_failure u c = none
  flush_loop (suc fuel) files first_failure u c =
      if not (is_some u.pending || u.waiting_for_save)
      then some (first_failure, u, c)
      else let (returned, failure', u', c') = flush_round (files fuel) first_failure u c in
        let rest = flush_loop fuel files failure' u' c' in
        elim returned [ some r ↦ some (r, u', c') | none ↦ rest ]

  unfoldable pub flush :
      ℕ
      → (ℕ → Result)
      → UiStateController
      → PreferencesController K
      → Option (Result × UiStateController × PreferencesController K)
  unfolding flush_loop
  flush fuel files = flush_loop fuel files ok

-- The calls of the two controllers; a round of `flush` counts as one.
pub data UiEvent : Type 0 where
  requested : ℕ → UiStateSnapshot → UiEvent
  polled : ℕ → Option Result → UiEvent
  flushed : Result → Result → UiEvent
  called : ControllerEvent → UiEvent

module _ {K : Type 0} (ops : CredentialStoreOps K) where
  unfoldable pub ui_step :
      UiEvent
      → UiStateController × PreferencesController K
      → UiStateController × PreferencesController K
  unfolding request poll_ui_state flush_round controller_step
  ui_step (requested now state) (u, c) = (request now state u, c)
  ui_step (polled now ready) (u, c) = poll_ui_state ops now ready u c
  ui_step (flushed file failure) (u, c) =
      let (_, _, u', c') = flush_round ops file failure u c in (u', c')
  ui_step (called e) (u, c) = (u, controller_step ops e c)

  unfoldable pub ui_run :
      List UiEvent
      → UiStateController × PreferencesController K
      → UiStateController × PreferencesController K
  unfolding ui_step
  ui_run [] s = s
  ui_run (e ∷ es) s = ui_run es (ui_step e s)
