-- ===== src/Tests/Preferences.antt =====
-- Runs of the controllers of the preferences.
use hypertube.Common.{
  inl, inr, pos, ◌≡◌, refl, Bool, true, false, not, List, [], ◌∷◌, Option, none, some, Text, codes,
  text_beq, text_beq_iff, sym, arith, if◌then◌else◌, ◌==◌, text_eq, is_empty, Result, ok, failure,
  storage, unavailable,
}
use mathlib.Core.Bool.{false≢true}
use hypertube.Config.Preferences.{PreferencesSettings}
use hypertube.Config.Preferences.RoundTrip.{normal, normal_idem}
use hypertube.Search.Providers.{validate_proxy_config}
use hypertube.Torrents.Session.{SessionSettings, no_proxy}
use hypertube.Search.Settings.{SearchSettings}
use hypertube.Preferences.Runtime.{Runtime, apply_runtime}
use hypertube.Preferences.Accepted.{apply_runtime-validate_preferences}
use hypertube.Preferences.Credentials.{
  CredentialLoadResult, stored, missing, previous_secret, CredentialStoreOps, Credentials,
  save_task, write_given, abandon_save, write_credential, restore_credential_set, restore_changed,
  restore_credential, torznab_account,
}
use hypertube.Preferences.Credentials.Restored.{Promises, Undone, save_task-Undone}
use hypertube.Preferences.Controller.{
  PreferencesController, take_save, run_rollback, validate_preferences, with_credentials,
  preferences_save, no_save, poll_save,
}
use hypertube.Preferences.Atomic.{Inv, Reported, poll_save-Settled}
use hypertube.Preferences.Runs.{
  ControllerEvent, save, save_ui, poll, wait, controller_run, controller_run-Inv,
}
use hypertube.Preferences.UiState.{
  UiStateController, UiStateSnapshot, UiEvent, requested, polled, flushed, called, ui_run,
  flush_loop,
}
use hypertube.Preferences.UiState.Shown.{Shows, ui_run-Shows}
use hypertube.Preferences.UiState.Stranded.{flush_loop-stranded}
use hypertube.Tests.Config.{sample_preferences, wide_layout}

abbrev answer_of : Option Text → CredentialLoadResult
answer_of none = record { status = missing; secret = [] }
answer_of (some s) = record { status = stored; secret = s }

-- A credential store that is one secret per account, with a promise each; an empty secret is none.
abbrev keys : CredentialStoreOps (Text → Option Text)
keys = record {
  store = λ a s k. (ok, λ b. if a == b then some s else k b);
  erase = λ a k. (ok, λ b. if a == b then none else k b);
  load = λ a k. answer_of (k a);
}

abbrev filled : Option Text → Option Text
filled none = none
filled (some s) = if is_empty s then none else some s

abbrev secret_of : Text → (Text → Option Text) → Option Text
secret_of a k = filled (k a)

answer_of-filled : (o : Option Text) → previous_secret (answer_of o) ≡ filled o
answer_of-filled none = refl
answer_of-filled (some s) = ground arith

keys-Promises : Promises keys secret_of
keys-Promises = record {
  answered = λ a k h. answer_of-filled (k a);
  stored_secret = λ a s k f e. ground (arith, text_beq_iff a a);
  erased = λ a k e. ground (arith, text_beq_iff a a);
  store_other = λ a b s k h. ground (arith, h);
  erase_other = λ a b k h. ground (arith, h);
  store_fails = λ a b s k h. absurd (false≢true (sym h));
  erase_fails = λ a b k h. absurd (false≢true (sym h));
}

abbrev one_secret : Text → Option Text
one_secret a = if a == torznab_account then some (codes "old") else none

abbrev bad_write : Result
bad_write = failure (codes "disk full") storage

task_fails :
    (save_task keys (some (codes "new")) (some []) bad_write one_secret).result.success ≡ false
unfolding save_task write_given abandon_save write_credential restore_credential_set restore_changed
    restore_credential text_beq
task_fails = refl

save_task-Undone_example :
    Undone keys secret_of keys-Promises one_secret
      (save_task keys (some (codes "new")) (some []) bad_write one_secret)
unfolding text_beq
save_task-Undone_example =
    save_task-Undone keys secret_of keys-Promises (some (codes "new")) (some []) bad_write
      one_secret (inl refl) (inr refl) task_fails

abbrev plain_session : SessionSettings
plain_session = record {
  download_rate_limit = pos 0;
  upload_rate_limit = pos 0;
  enable_dht = true;
  enable_upnp = true;
  enable_natpmp = true;
  proxy_hostname = [];
  proxy_port = pos 0;
  proxy_username = [];
  proxy_password = [];
  proxy_type = no_proxy;
}

abbrev plain_search : SearchSettings
plain_search = record {
  api_url = codes "https://torrents-csv.com/service/search";
  timeout_seconds = 15;
  max_retries = 3;
  proxy_enabled = false;
  proxy_type = codes "socks5";
  proxy_host = [];
  proxy_port = 1080;
  proxy_username = [];
  proxy_password = [];
}

abbrev plain_runtime : Runtime
plain_runtime = record {
  theme = pos 0;
  session = plain_session;
  search = plain_search;
  providers = record { providers = []; active_provider = codes "torrents-csv" };
  cleared = false;
}

-- Settings without a type of proxy: they pass the checks and cannot be applied.
abbrev typeless : PreferencesSettings
typeless = record sample_preferences { proxy_type = [] }

typeless_passes : (validate_preferences typeless).success ≡ true
unfolding validate_preferences validate_proxy_config text_beq
typeless_passes = refl

apply_runtime-validate_preferences_example :
    (apply_runtime typeless none [] plain_runtime).0.success ≡ not (is_empty typeless.proxy_type)
apply_runtime-validate_preferences_example =
    apply_runtime-validate_preferences typeless none [] plain_runtime typeless_passes

abbrev no_credentials : Credentials
no_credentials = record {
  previous_torznab = none;
  previous_proxy = none;
  runtime_torznab = none;
  runtime_proxy = [];
  torznab_changed = false;
  proxy_changed = false;
}

abbrev controller : {K : Type 0} → K → PreferencesController K
controller k = record {
  config = normal sample_preferences;
  saves = [];
  keyring = k;
  runtime = plain_runtime;
  pending_save = none;
  pending_credential_rollback = none;
  pending_save_kind = no_save;
  last_completed_save_kind = no_save;
  queued_ui_state = none;
  pending_preferences = sample_preferences;
  previous_preferences = sample_preferences;
  credentials = no_credentials;
}

controller-Inv : {K : Type 0} (k : K) → Inv (controller k)
controller-Inv k = record {
  one = λ h. absurd (false≢true h);
  held = λ h. absurd (false≢true h);
  normal_config = normal_idem sample_preferences;
}

abbrev some_calls : List ControllerEvent
some_calls =
    save typeless (some (codes "new")) none
    ∷ save_ui sample_preferences
    ∷ poll none
    ∷ poll (some ok)
    ∷ wait bad_write
    ∷ []

controller_run-Inv_example : Inv (controller_run keys some_calls (controller one_secret))
controller_run-Inv_example =
    controller_run-Inv keys some_calls (controller one_secret) (controller-Inv one_secret)

-- The controller with the save of such settings pending.
abbrev saving : {K : Type 0} → K → PreferencesController K
saving k = record (controller k) {
  pending_save = some (with_credentials (some (codes "new")) none);
  pending_save_kind = preferences_save;
  pending_preferences = typeless;
  previous_preferences = normal sample_preferences;
}

saving-Inv : {K : Type 0} (k : K) → Inv (saving k)
saving-Inv k = record {
  one = λ h. refl;
  held = λ h. refl;
  normal_config = normal_idem sample_preferences;
}

poll_save-Settled_example :
    Reported keys (some ok) (saving one_secret) (poll_save keys (some ok) (saving one_secret))
poll_save-Settled_example =
    poll_save-Settled keys (some ok) (saving one_secret) (saving-Inv one_secret)

-- A credential store that takes one secret and nothing else.
abbrev stiff : CredentialStoreOps Bool
stiff = record {
  store = λ a s full. if full then (failure (codes "full") unavailable, full) else (ok, true);
  erase = λ a full. (failure (codes "locked") unavailable, full);
  load = λ a full. record { status = missing; secret = [] };
}

abbrev wide : UiStateSnapshot
wide = record { theme = pos 1; layout = wide_layout }

abbrev settled_ui : UiStateController
settled_ui = record {
  committed = wide;
  pending = none;
  in_flight = none;
  deadline = 0;
  waiting_for_save = false;
  preview = wide;
  errors = [];
}

abbrev ui_calls : List UiEvent
ui_calls =
    requested 5 (record wide { theme = pos 2 })
    ∷ polled 10 none
    ∷ polled 405 (some ok)
    ∷ called (poll none)
    ∷ flushed bad_write ok
    ∷ []

ui_run-Shows_example : Shows (ui_run keys ui_calls (settled_ui, controller one_secret)).0
ui_run-Shows_example =
    ui_run-Shows keys ui_calls settled_ui (controller one_secret)
      record { shown = refl; waits = refl }

abbrev waiting_ui : UiStateController
waiting_ui = record settled_ui { in_flight = some wide; waiting_for_save = true }

abbrev to_undo : Credentials
to_undo = record {
  previous_torznab = none;
  previous_proxy = none;
  runtime_torznab = some (codes "new");
  runtime_proxy = [];
  torznab_changed = true;
  proxy_changed = false;
}

-- The restoration that the failing save asks for, and that fails.
undoing :
    let t = (take_save stiff (with_credentials (some (codes "new")) none) ok (saving false)).1 in
    (t.pending_credential_rollback ≡ some to_undo)
    × ((run_rollback stiff to_undo t).0.success ≡ false)
unfolding take_save validate_proxy_config text_beq run_rollback
undoing = (refl, refl)

flush_loop-stranded_example : flush_loop stiff 100 (λ _. ok) ok waiting_ui (saving false) ≡ none
flush_loop-stranded_example =
    flush_loop-stranded stiff 99 (λ _. ok) ok waiting_ui (saving false)
      (with_credentials (some (codes "new")) none) to_undo (saving-Inv false) refl refl refl
      undoing.0 undoing.1
