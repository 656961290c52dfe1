-- ===== src/Preferences/Credentials.antt =====
-- The credentials of src/presentation/PreferencesController.cpp: `restoreCredentialSet`, and the task
-- that `beginSave` starts.

pub mod Restored
use hypertube.Common.{
  Bool, true, false, not, ◌&&◌, ◌++◌, Option, none, some, Text, codes, msg, if◌then◌else◌, is_empty,
  get_or_else, is_some, Result, ok, failure, partial, [],
}

-- `CredentialStatus`, of src/include/utils/CredentialStore.hpp.
pub data CredentialStatus : Type 0 where
  stored missing unavailable permission_denied : CredentialStatus

pub record CredentialLoadResult : Type 0 where
  pub status : CredentialStatus
  pub secret : Text

abbrev is_stored : CredentialStatus → Bool
is_stored stored = true
is_stored _ = false

-- `hasSecret`
abbrev pub has_secret : CredentialLoadResult → Bool
has_secret r = is_stored r.status && not (is_empty r.secret)

-- `CredentialStoreOps` over the state `K` of the credential store.
pub record CredentialStoreOps (K : Type 0) : Type 0 where
  pub store : Text → Text → K → Result × K
  pub erase : Text → K → Result × K
  pub load : Text → K → CredentialLoadResult

-- The secret that a save goes back to; a store that does not answer counts as one without a secret.
abbrev pub previous_secret : CredentialLoadResult → Option Text
previous_secret r = if has_secret r then some r.secret else none

abbrev pub torznab_account : Text
torznab_account = codes "torznab_api_key"

abbrev pub proxy_account : Text
proxy_account = codes "proxy_password"

-- The members that a task that succeeds writes.
pub record Credentials : Type 0 where
  pub previous_torznab : Option Text
  pub previous_proxy : Option Text
  pub runtime_torznab : Option Text
  pub runtime_proxy : Text
  pub torznab_changed : Bool
  pub proxy_changed : Bool

-- `credentials` is nothing where the task fails, and `reached` tells whether a candidate was saved.
pub record TaskOutcome (K : Type 0) : Type 0 where
  pub result : Result
  pub keyring : K
  pub credentials : Option Credentials
  pub reached : Bool

module _ {K : Type 0} (ops : CredentialStoreOps K) where
  -- An empty secret is erased.
  unfoldable pub write_credential : Text → Text → K → Result × K
  write_credential account secret k =
      if is_empty secret then ops.erase account k else ops.store account secret k

  unfoldable pub restore_credential : Text → Option Text → K → Result × K
  restore_credential account previous k = elim previous [
    | none ↦ ops.erase account k
    | some secret ↦ ops.store account secret k
  ]

  -- One half of `restoreCredentialSet`: a first failure is kept.
  unfoldable pub restore_changed : Bool → Text → Option Text → Result × K → Result × K
  unfolding restore_credential
  restore_changed changed account previous (first_failure, k) =
      if not changed
      then (first_failure, k)
      else let (result, k') = restore_credential account previous k in
        if not result.success && first_failure.success
        then (failure result.message partial, k')
        else (first_failure, k')

  unfoldable pub restore_credential_set : Option Text → Option Text → Bool → Bool → K → Result × K
  unfolding restore_changed
  restore_credential_set previous_torznab previous_proxy torznab_changed proxy_changed k =
      restore_changed proxy_changed proxy_account previous_proxy
        (restore_changed torznab_changed torznab_account previous_torznab (ok, k))

  -- A credential that is given is written; the second part tells whether it was.
  unfoldable pub write_given : Text → Option Text → K → Result × Bool × K
  unfolding write_credential
  write_given account given k = elim given [
    | none ↦ (ok, false, k)
    | some secret ↦
        let (result, k') = write_credential account secret k in (result, result.success, k')
  ]

  -- What is in use afterwards.
  abbrev pub in_use : Option Text → Option Text → Option Text
  in_use given previous = elim given [
    | none ↦ previous
    | some secret ↦ if is_empty secret then none else some secret
  ]

  -- The result after an attempt to restore the credentials.
  unfoldable pub abandon_save :
      Result → Option Text → Option Text → Bool → Bool → Bool → K → TaskOutcome K
  unfolding restore_credential_set
  abandon_save result previous_torznab previous_proxy torznab_changed proxy_changed reached k =
      let (restore, k') =
        restore_credential_set previous_torznab previous_proxy torznab_changed proxy_changed k in
      record {
        result =
            if restore.success
            then result
            else failure
                (result.message
                  ++ (msg "; credentials could not be fully restored: " ++ restore.message))
                partial;
        keyring = k';
        credentials = none;
        reached = reached;
      }

  -- The task: `file` is what the save of the candidate comes to.
  unfoldable pub save_task : Option Text → Option Text → Result → K → TaskOutcome K
  unfolding write_given abandon_save
  save_task api_key password file k =
      let previous_torznab = previous_secret (ops.load torznab_account k) in
      let previous_proxy = previous_secret (ops.load proxy_account k) in
      let (torznab, torznab_changed, k1) = write_given torznab_account api_key k in
      if not torznab.success
      then record { result = torznab; keyring = k1; credentials = none; reached = false }
      else let (proxy, proxy_changed, k2) = write_given proxy_account password k1 in
        if not proxy.success
        then abandon_save proxy previous_torznab previous_proxy torznab_changed false false k2
        else if not file.success
        then abandon_save file previous_torznab previous_proxy torznab_changed proxy_changed true k2
        else record {
          result = file;
          keyring = k2;
          credentials = some record {
            previous_torznab = previous_torznab;
            previous_proxy = previous_proxy;
            runtime_torznab = in_use api_key previous_torznab;
            runtime_proxy = get_or_else [] (in_use password previous_proxy);
            torznab_changed = torznab_changed;
            proxy_changed = proxy_changed;
          };
          reached = true;
        }
