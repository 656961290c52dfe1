-- ===== src/Preferences/UiState/Stranded.antt =====
-- `flush` of src/presentation/UiStateController.cpp behind a save whose credentials cannot be restored.
use hypertube.Common.{
  ℕ, zero, suc, ◌≡◌, refl, sym, ap, ◌∙◌, true, false, none, some, arith, is_some, Option-cases, inl,
  inr, Result,
}
use mathlib.Core.Bool.{false≢true}
use hypertube.Preferences.Credentials.{CredentialStoreOps, Credentials}
use hypertube.Preferences.Controller.{
  PreferencesController, SaveTask, is_ui_save, take_save, run_rollback, finish_rollback,
  wait_for_save,
}
use hypertube.Preferences.Atomic.{Inv, take_save-Inv}
use hypertube.Preferences.UiState.{UiStateController, take_result, flush_round, flush_loop}

-- A save is waited for that is not pending, and the last one was none of the layout.
pub record Stranded {K : Type 0} (u : UiStateController) (c : PreferencesController K)
    : Type 0 where
  waits : u.waiting_for_save ≡ true
  idle : c.pending_save ≡ none
  calm : c.pending_credential_rollback ≡ none
  other : is_ui_save c.last_completed_save_kind ≡ false

module _ {K : Type 0} (ops : CredentialStoreOps K) where
  flush_round-Stranded :
      (file failure : Result) (u : UiStateController) (c : PreferencesController K)
      → Stranded u c
      → flush_round ops file failure u c ≡ (none, failure, u, c)
  unfolding flush_round wait_for_save take_result
  flush_round-Stranded file failure u c h = ground (arith, h.waits, h.idle, h.calm, h.other)

  flush_loop-Stranded :
      (fuel : ℕ) (files : ℕ → Result) (failure : Result) (u : UiStateController)
      (c : PreferencesController K)
      → Stranded u c
      → flush_loop ops fuel files failure u c ≡ none
  unfolding flush_loop
  flush_loop-Stranded zero files failure u c h = refl
  flush_loop-Stranded (suc fuel) files failure u c h =
      let again = flush_loop-Stranded fuel files failure u c h in
      ground (arith, h.waits, flush_round-Stranded (files fuel) failure u c h, again)

  last_kind :
      (task : SaveTask) (file : Result) (c : PreferencesController K)
      → (take_save ops task file c).1.last_completed_save_kind ≡ c.pending_save_kind
  unfolding take_save
  last_kind task file c = refl

  idle_behind_rollback :
      (c : PreferencesController K) (r : Credentials)
      → Inv c
      → c.pending_credential_rollback ≡ some r
      → c.pending_save ≡ none
  idle_behind_rollback c r v e = elim (Option-cases c.pending_save) [
    | inl absent ↦ absent
    | inr (task, there) ↦ absurd (false≢true (sym (v.one (ap is_some there)) ∙ ap is_some e))
  ]

  finish_rollback-fails :
      (w : Result × PreferencesController K) (r : Credentials)
      → w.1.pending_credential_rollback ≡ some r
      → (run_rollback ops r w.1).0.success ≡ false
      → (finish_rollback ops w).1 ≡ (run_rollback ops r w.1).1
  unfolding finish_rollback
  finish_rollback-fails w r rolling fails = ground (arith, rolling, fails)

  wait_for_save-pending :
      (file : Result) (c : PreferencesController K) (task : SaveTask)
      → c.pending_save ≡ some task
      → wait_for_save ops file c ≡ finish_rollback ops (take_save ops task file c)
  unfolding wait_for_save
  wait_for_save-pending file c task pending = ground (arith, pending)

  -- A wait in which the restoration fails leaves what the restoration leaves.
  wait_for_save-fails :
      (file : Result) (c : PreferencesController K) (task : SaveTask) (r : Credentials)
      → c.pending_save ≡ some task
      → (take_save ops task file c).1.pending_credential_rollback ≡ some r
      → (run_rollback ops r (take_save ops task file c).1).0.success ≡ false
      → (wait_for_save ops file c).1 ≡ (run_rollback ops r (take_save ops task file c).1).1
  wait_for_save-fails file c task r pending rolling fails =
      ap (λ w. w.1) (wait_for_save-pending file c task pending)
      ∙ finish_rollback-fails (take_save ops task file c) r rolling fails

  -- A round in which a layout is waited for, and a save of another kind ends.
  other_round :
      (file failure : Result) (u : UiStateController) (c : PreferencesController K)
      → u.waiting_for_save ≡ true
      → is_ui_save (wait_for_save ops file c).1.last_completed_save_kind ≡ false
      → ((flush_round ops file failure u c).0 ≡ none)
        × ((flush_round ops file failure u c).2.waiting_for_save ≡ true)
        × ((flush_round ops file failure u c).3 ≡ (wait_for_save ops file c).1)
  unfolding flush_round take_result
  other_round file failure u c waits other =
      (ground (arith, waits, other), ground (arith, waits, other), ground (arith, waits))

  run_rollback_rest :
      (r : Credentials) (t : PreferencesController K)
      → ((run_rollback ops r t).1.pending_save ≡ t.pending_save)
        × ((run_rollback ops r t).1.pending_credential_rollback ≡ none)
        × ((run_rollback ops r t).1.last_completed_save_kind ≡ t.last_completed_save_kind)
  unfolding run_rollback
  run_rollback_rest r t = (refl, refl, refl)

  -- The state after the round in which the save ends and the restoration fails.
  strands :
      (file failure : Result) (u : UiStateController) (c : PreferencesController K)
      (task : SaveTask) (r : Credentials)
      → Inv c
      → u.waiting_for_save ≡ true
      → c.pending_save ≡ some task
      → is_ui_save c.pending_save_kind ≡ false
      → (take_save ops task file c).1.pending_credential_rollback ≡ some r
      → (run_rollback ops r (take_save ops task file c).1).0.success ≡ false
      → let t = flush_round ops file failure u c in (t.0 ≡ none) × Stranded t.2 t.3
  strands file failure u c task r v waits pending kind rolling fails =
      let t = (take_save ops task file c).1 in
      let left = wait_for_save-fails file c task r pending rolling fails in
      let (save, calm, last) = run_rollback_rest r t in
      let other : is_ui_save (wait_for_save ops file c).1.last_completed_save_kind ≡ false =
        ap (λ s. is_ui_save s.last_completed_save_kind) left
        ∙ ap is_ui_save last
        ∙ ap is_ui_save (last_kind task file c)
        ∙ kind in
      let (goes_on, still, same) = other_round file failure u c waits other in
      let idle = idle_behind_rollback t r (take_save-Inv ops task file c pending v) rolling in
      (
        goes_on,
        record {
          waits = still;
          idle = ap (λ s. s.pending_save) (same ∙ left) ∙ save ∙ idle;
          calm = ap (λ s. s.pending_credential_rollback) (same ∙ left) ∙ calm;
          other = ap (λ s. is_ui_save s.last_completed_save_kind) same ∙ other;
        },
      )

  -- If a layout waits behind a pending save of the preferences, and this save ends with credentials
  -- that are to be restored and cannot be, then `flush` gives no result within any number of rounds.
  pub flush_loop-stranded :
      (fuel : ℕ) (files : ℕ → Result) (failure : Result) (u : UiStateController)
      (c : PreferencesController K) (task : SaveTask) (r : Credentials)
      → Inv c
      → u.waiting_for_save ≡ true
      → c.pending_save ≡ some task
      → is_ui_save c.pending_save_kind ≡ false
      → (take_save ops task (files fuel) c).1.pending_credential_rollback ≡ some r
      → (run_rollback ops r (take_save ops task (files fuel) c).1).0.success ≡ false
      → flush_loop ops (suc fuel) files failure u c ≡ none
  unfolding flush_loop
  flush_loop-stranded fuel files failure u c task r v waits pending kind rolling fails =
      let t = flush_round ops (files fuel) failure u c in
      let (goes_on, stranded) =
        strands (files fuel) failure u c task r v waits pending kind rolling fails in
      let again = flush_loop-Stranded fuel files t.1 t.2 t.3 stranded in
      ground (arith, waits, goes_on, again)
