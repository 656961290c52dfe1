-- ===== src/Preferences/Credentials/Restored.antt =====
-- A task of `beginSave` that fails leaves the credentials as they were, or says that it could not.
use hypertube.Common.{
  ◌≡◌, ◌⊎◌, refl, sym, ◌∙◌, Bool, true, false, not, ◌&&◌, Option, none, some, arith, Text, text_beq,
  ◌==◌, text_eq, is_empty, if_cases, if_rule, option_rule, Result, partial, Bool-cases, inl, inr,
  ok,
}
use mathlib.Core.Bool.{false≢true}
use hypertube.Preferences.Credentials.{
  stored, missing, CredentialLoadResult, has_secret, previous_secret, CredentialStoreOps,
  TaskOutcome, torznab_account, proxy_account, write_credential, restore_credential,
  restore_changed, restore_credential_set, write_given, abandon_save, save_task,
}

-- The store gives an answer: a secret, or that there is none.
abbrev pub IsAnswered : CredentialLoadResult → Type 0
IsAnswered r = (r.status ≡ stored) ⊎ (r.status ≡ missing)

-- What the credential store promises, where `secret_in` is what an account really holds: an answer
-- tells the secret; a call that succeeds does what it is named for, and leaves the other accounts
-- alone; a call that fails changes nothing.
pub record Promises {K : Type 0} (ops : CredentialStoreOps K) (secret_in : Text → K → Option Text)
    : Type 0 where
  pub answered :
      (a : Text) (k : K)
      → IsAnswered (ops.load a k)
      → previous_secret (ops.load a k) ≡ secret_in a k
  pub stored_secret :
      (a s : Text) (k : K)
      → is_empty s ≡ false
      → (ops.store a s k).0.success ≡ true
      → secret_in a (ops.store a s k).1 ≡ some s
  pub erased :
      (a : Text) (k : K) → (ops.erase a k).0.success ≡ true → secret_in a (ops.erase a k).1 ≡ none
  pub store_other :
      (a b s : Text) (k : K) → (a == b) ≡ false → secret_in b (ops.store a s k).1 ≡ secret_in b k
  pub erase_other :
      (a b : Text) (k : K) → (a == b) ≡ false → secret_in b (ops.erase a k).1 ≡ secret_in b k
  pub store_fails :
      (a b s : Text) (k : K)
      → (ops.store a s k).0.success ≡ false
      → secret_in b (ops.store a s k).1 ≡ secret_in b k
  pub erase_fails :
      (a b : Text) (k : K)
      → (ops.erase a k).0.success ≡ false
      → secret_in b (ops.erase a k).1 ≡ secret_in b k

-- A secret that is gone back to is not empty.
abbrev IsFilled : Option Text → Type 0
IsFilled none = Unit
IsFilled (some secret) = is_empty secret ≡ false

previous_secret-IsFilled : (r : CredentialLoadResult) → IsFilled (previous_secret r)
previous_secret-IsFilled r =
    if_cases IsFilled (has_secret r) (some r.secret) none (λ e. ground arith) (λ _. tt)

module _ {K : Type 0} (ops : CredentialStoreOps K) (secret_in : Text → K → Option Text)
    (p : Promises ops secret_in) where
  write-other :
      (a b secret : Text) (k : K)
      → (a == b) ≡ false
      → secret_in b (write_credential ops a secret k).1 ≡ secret_in b k
  unfolding write_credential
  write-other a b secret k h =
      if_rule {A = Result × K} (λ t. secret_in b t.1 ≡ secret_in b k) (is_empty secret) _ _
        (p.erase_other a b k h) (p.store_other a b secret k h)

  write-fails :
      (a b secret : Text) (k : K)
      → (write_credential ops a secret k).0.success ≡ false
      → secret_in b (write_credential ops a secret k).1 ≡ secret_in b k
  unfolding write_credential
  write-fails a b secret k =
      if_rule {A = Result × K} (λ t. t.0.success ≡ false → secret_in b t.1 ≡ secret_in b k)
        (is_empty secret) _ _ (p.erase_fails a b k) (p.store_fails a b secret k)

  restore-other :
      (a b : Text) (previous : Option Text) (k : K)
      → (a == b) ≡ false
      → secret_in b (restore_credential ops a previous k).1 ≡ secret_in b k
  unfolding restore_credential
  restore-other a b previous k h =
      option_rule {C = Result × K} (λ t. secret_in b t.1 ≡ secret_in b k) previous _ _
        (λ _. p.erase_other a b k h) (λ secret _. p.store_other a b secret k h)

  restore-back :
      (a : Text) (previous : Option Text) (k : K)
      → IsFilled previous
      → (restore_credential ops a previous k).0.success ≡ true
      → secret_in a (restore_credential ops a previous k).1 ≡ previous
  unfolding restore_credential
  restore-back a none k f h = p.erased a k h
  restore-back a (some secret) k f h = p.stored_secret a secret k f h

  restore_changed-other :
      (changed : Bool) (a b : Text) (previous : Option Text) (t : Result × K)
      → (a == b) ≡ false
      → secret_in b (restore_changed ops changed a previous t).1 ≡ secret_in b t.1
  unfolding restore_changed
  restore_changed-other changed a b previous (f, k) h =
      if_rule {A = Result × K} (λ t. secret_in b t.1 ≡ secret_in b k) (not changed) _ _ refl
        (if_rule {A = Result × K} (λ t. secret_in b t.1 ≡ secret_in b k)
          (not (restore_credential ops a previous k).0.success && f.success) _ _
          (restore-other a b previous k h) (restore-other a b previous k h))

  -- A first failure is kept, and without one the account is as it was before it was changed.
  restore_changed-back :
      (changed : Bool) (a : Text) (previous : Option Text) (t : Result × K)
      → IsFilled previous
      → (changed ≡ false → secret_in a t.1 ≡ previous)
      → (restore_changed ops changed a previous t).0.success ≡ true
      → (t.0.success ≡ true) × (secret_in a (restore_changed ops changed a previous t).1 ≡ previous)
  unfolding restore_changed
  restore_changed-back changed a previous (f, k) filled unchanged =
      let P = λ (t : Result × K).
        t.0.success ≡ true → (f.success ≡ true) × (secret_in a t.1 ≡ previous) in
      if_cases {A = Result × K} P (not changed) _ _ (λ same e. (e, unchanged (ground arith)))
        λ _.
          let back = restore-back a previous k filled in
          if_cases {A = Result × K} P
            (not (restore_credential ops a previous k).0.success && f.success) _ _
            (λ _ e. absurd (false≢true e)) (λ h e. (e, back (ground arith)))

  -- Both accounts hold what they held.
  abbrev pub Kept : K → K → Type 0
  Kept k k' =
      (secret_in torznab_account k' ≡ secret_in torznab_account k)
      × (secret_in proxy_account k' ≡ secret_in proxy_account k)

  restore_credential_set-Kept :
      (k0 k : K) (torznab proxy : Option Text) (torznab_changed proxy_changed : Bool)
      → IsFilled torznab
      → IsFilled proxy
      → torznab ≡ secret_in torznab_account k0
      → proxy ≡ secret_in proxy_account k0
      → (torznab_changed ≡ false → secret_in torznab_account k ≡ secret_in torznab_account k0)
      → (proxy_changed ≡ false → secret_in proxy_account k ≡ secret_in proxy_account k0)
      → let t = restore_credential_set ops torznab proxy torznab_changed proxy_changed k in
        t.0.success ≡ true → Kept k0 t.1
  unfolding restore_credential_set text_beq
  restore_credential_set-Kept k0 k torznab proxy torznab_changed proxy_changed ft fp et ep ht hp e =
      let t1 = restore_changed ops torznab_changed torznab_account torznab (ok, k) in
      let (e1, proxy_back) =
        restore_changed-back proxy_changed proxy_account proxy t1 fp
          (λ h.
            restore_changed-other torznab_changed torznab_account proxy_account torznab (ok, k) refl
            ∙ hp h
            ∙ sym ep)
          e in
      let (_, torznab_back) =
        restore_changed-back torznab_changed torznab_account torznab (ok, k) ft (λ h. ht h ∙ sym et)
          e1 in
      (
        restore_changed-other proxy_changed proxy_account torznab_account proxy t1 refl
            ∙ torznab_back
            ∙ et,
        proxy_back ∙ ep,
      )

  -- What a failure may leave: the old credentials, or a result that owns up to something else.
  abbrev pub Undone : K → TaskOutcome K → Type 0
  Undone k t = (t.result.code ≡ partial) ⊎ Kept k t.keyring

  abandon_save-Undone :
      (result : Result) (k0 k : K) (torznab proxy : Option Text)
      (torznab_changed proxy_changed reached : Bool)
      → IsFilled torznab
      → IsFilled proxy
      → torznab ≡ secret_in torznab_account k0
      → proxy ≡ secret_in proxy_account k0
      → (torznab_changed ≡ false → secret_in torznab_account k ≡ secret_in torznab_account k0)
      → (proxy_changed ≡ false → secret_in proxy_account k ≡ secret_in proxy_account k0)
      → Undone k0 (abandon_save ops result torznab proxy torznab_changed proxy_changed reached k)
  unfolding abandon_save
  abandon_save-Undone result k0 k torznab proxy torznab_changed proxy_changed reached ft fp et ep ht
        hp =
      let t = restore_credential_set ops torznab proxy torznab_changed proxy_changed k in
      elim (Bool-cases t.0.success) [
        | inl e ↦ inr (
            restore_credential_set-Kept k0 k torznab proxy torznab_changed proxy_changed ft fp et ep
              ht hp e)
        | inr e ↦ inl (ground arith)
      ]

  write_given-other :
      (a b : Text) (given : Option Text) (k : K)
      → (a == b) ≡ false
      → secret_in b (write_given ops a given k).2 ≡ secret_in b k
  unfolding write_given
  write_given-other a b none k h = refl
  write_given-other a b (some secret) k h = write-other a b secret k h

  -- An account that was not changed holds what it held.
  write_given-unchanged :
      (a : Text) (given : Option Text) (k : K)
      → (write_given ops a given k).1 ≡ false
      → secret_in a (write_given ops a given k).2 ≡ secret_in a k
  unfolding write_given
  write_given-unchanged a none k h = refl
  write_given-unchanged a (some secret) k h = write-fails a a secret k h

  write_given-failed :
      (a : Text) (given : Option Text) (k : K)
      → (write_given ops a given k).0.success ≡ false
      → (write_given ops a given k).1 ≡ false
  unfolding write_given
  write_given-failed a none k h = absurd (false≢true (sym h))
  write_given-failed a (some secret) k h = h

  -- If the credential store keeps its promises, and answers for both accounts when the task begins, a
  -- task that fails leaves both accounts with what they held before it, or its result has the code
  -- `Partial`.
  pub save_task-Undone :
      (api_key password : Option Text) (file : Result) (k : K)
      → IsAnswered (ops.load torznab_account k)
      → IsAnswered (ops.load proxy_account k)
      → (save_task ops api_key password file k).result.success ≡ false
      → Undone k (save_task ops api_key password file k)
  unfolding save_task text_beq
  save_task-Undone api_key password file k at ap =
      let P = λ (t : TaskOutcome K). t.result.success ≡ false → Undone k t in
      let w1 = write_given ops torznab_account api_key k in
      let w2 = write_given ops proxy_account password w1.2 in
      let other = write_given-other torznab_account proxy_account api_key k refl in
      let before = write_given-other proxy_account torznab_account password w1.2 refl in
      let torznab =
        λ (h : w1.1 ≡ false). before ∙ write_given-unchanged torznab_account api_key k h in
      let proxy =
        λ (h : w2.1 ≡ false). write_given-unchanged proxy_account password w1.2 h ∙ other in
      let abandon =
        λ (r : Result) (proxy_changed reached : Bool)
            (hp : proxy_changed ≡ false → secret_in proxy_account w2.2 ≡ secret_in proxy_account k).
          abandon_save-Undone r k w2.2 _ _ w1.1 proxy_changed reached
            (previous_secret-IsFilled (ops.load torznab_account k))
            (previous_secret-IsFilled (ops.load proxy_account k)) (p.answered torznab_account k at)
            (p.answered proxy_account k ap) torznab hp in
      if_cases P (not w1.0.success) _ _
        (λ failed _. inr (
          write_given-unchanged torznab_account api_key k
              (write_given-failed torznab_account api_key k (ground arith)),
          other,
        ))
        λ _.
          if_cases P (not w2.0.success) _ _
            (λ failed _.
              abandon w2.0 false false
                (λ _. proxy (write_given-failed proxy_account password w1.2 (ground arith))))
            λ _.
              if_cases P (not file.success) _ _ (λ _ _. abandon file w2.1 true proxy)
                λ succeeded e. absurd (false≢true (ground arith))
