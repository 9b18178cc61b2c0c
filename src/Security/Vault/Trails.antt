-- ===== src/Security/Vault/Trails.antt =====
-- The audit trail that each call of the vault leaves, by how the call ends.
use choice_mind.Prelude.{
  ◌≡◌, refl, ◌∙◌, ◌⊎◌, inl, inr, Bool, List, [], ◌∷◌, Option, none, some, arith, Bool-cases,
}
use choice_mind.Security.Actors.{use_secret}
use choice_mind.Security.Vault.Monad.{
  EncryptedCredentialRecord, credential_use, AuditResult, started, allowed, denied, failed,
  VaultError, credential_not_found, credential_use_failed, secret_operation_failed, audit_rejected,
  SecretValue, World, Outcome, returned, thrown, throw, give, Storage, Cipher, VaultOptions,
  loaded_cases,
}
use choice_mind.Security.Vault.Audit.{
  Leaves, Ended, Leaves-nil, audited_then, last_record, failing_handler,
}
use choice_mind.Security.Vault.Rights.{IsEntitled, RefusedTrail, refused, may_access_iff}
use choice_mind.Security.Vault.{
  may_access, UseInput, use_credential, subject_of, run_operation, finish_use, use_loaded,
  use_started, record_matches,
}

-- The trails of a `use` that the caller may make, by outcome. A rejected record stops the call where it stands.
pub data UseTrail : Outcome (Unit {0}) → List AuditResult → Type 0 where
  not_matching : UseTrail (thrown credential_not_found) (started ∷ denied ∷ [])
  unreadable : UseTrail (thrown credential_use_failed) (started ∷ failed ∷ [])
  callback_failed : UseTrail (thrown secret_operation_failed) (started ∷ failed ∷ [])
  succeeded : UseTrail (returned tt) (started ∷ allowed ∷ [])
  silent : UseTrail (thrown audit_rejected) []
  cut_short : UseTrail (thrown audit_rejected) (started ∷ [])

failure_trail :
    (e : VaultError)
    → ((some e ≡ some credential_use_failed) ⊎ (some e ≡ some secret_operation_failed))
    → UseTrail (thrown e) (started ∷ failed ∷ [])
failure_trail credential_use_failed h = unreadable
failure_trail secret_operation_failed h = callback_failed
failure_trail e h = ground arith

module _ {S : Type 0} (cipher : Cipher) (storage : Storage S) (options : VaultOptions) where
  finish_use_trail :
      (input : UseInput) (w₀ w : World S) (e : Option VaultError)
      → ((e ≡ none) ⊎ ((e ≡ some credential_use_failed) ⊎ (e ≡ some secret_operation_failed)))
      → Leaves w₀ (started ∷ []) w
      → Ended UseTrail w₀ (finish_use cipher storage options input (e, w))
  unfolding finish_use
  finish_use_trail input w₀ w none h l =
      last_record options (subject_of input) credential_use UseTrail allowed (give tt) _ w₀ w _
        (λ _. refl) cut_short succeeded l
  finish_use_trail input w₀ w (some e) (inl h) l = cc
  finish_use_trail input w₀ w (some e) (inr h) l =
      last_record options (subject_of input) credential_use UseTrail failed (throw e) _ w₀ w _
        (λ _. refl) cut_short (failure_trail e h) l

  run_operation_errors :
      (operation : SecretValue → Bool) (r : EncryptedCredentialRecord) (w : World S)
      → let e = (run_operation cipher storage options operation r w).0 in
        (e ≡ none) ⊎ ((e ≡ some credential_use_failed) ⊎ (e ≡ some secret_operation_failed))
  unfolding run_operation
  run_operation_errors operation r w = ground arith

  run_operation_keeps :
      (operation : SecretValue → Bool) (r : EncryptedCredentialRecord) (w : World S)
      → (run_operation cipher storage options operation r w).1.audit ≡ w.audit
  unfolding run_operation
  run_operation_keeps operation r w = ground arith

  run_operation_audit :
      (operation : SecretValue → Bool) (r : EncryptedCredentialRecord) (w w₀ : World S)
      (rs : List AuditResult)
      → Leaves w₀ rs w
      → Leaves w₀ rs (run_operation cipher storage options operation r w).1
  run_operation_audit operation r w w₀ rs (es, added, results) =
      (es, run_operation_keeps operation r w ∙ added, results)

  use_loaded_trail :
      (input : UseInput) (operation : SecretValue → Bool) (w₀ w : World S)
      (found : Option EncryptedCredentialRecord)
      → Leaves w₀ (started ∷ []) w
      → Ended UseTrail w₀ (use_loaded cipher storage options input operation found w)
  unfolding use_loaded
  use_loaded_trail input operation w₀ w none l =
      last_record options (subject_of input) credential_use UseTrail denied
        (throw credential_not_found) _ w₀ w _ (λ _. refl) cut_short not_matching l
  use_loaded_trail input operation w₀ w (some r) l =
      elim (Bool-cases (record_matches options input r)) [
        | inr other ↦ rw other (
            last_record options (subject_of input) credential_use UseTrail denied
              (throw credential_not_found) _ w₀ w _ (λ _. refl) cut_short not_matching l)
        | inl same ↦ rw same (
            finish_use_trail input w₀ _ _ (run_operation_errors operation r w)
              (run_operation_audit operation r w w₀ _ l))
      ]

  use_started_trail :
      (input : UseInput) (operation : SecretValue → Bool) (w₀ w : World S)
      → Leaves w₀ (started ∷ []) w
      → Ended UseTrail w₀ (use_started cipher storage options input operation w)
  unfolding use_started
  use_started_trail input operation w₀ w l =
      elim (loaded_cases (storage.load input.credential_id input.owner_user_id w.storage)) [
        | inl (e, broken) ↦
            rw (broken, use_started)
              (failing_handler options (subject_of input) credential_use UseTrail failed
                credential_use_failed _ w₀ w _ cut_short unreadable l)
        | inr (inl missing) ↦
            rw (missing, use_started) (use_loaded_trail input operation w₀ w none l)
        | inr (inr (r, found)) ↦
            rw (found, use_started) (use_loaded_trail input operation w₀ w (some r) l)
      ]

  -- A use by the owner, or by the system as far as its access goes, leaves STARTED and then the result that
  -- its outcome says; only a record that the audit port rejects is missing. A use by anybody else leaves
  -- DENIED alone, or nothing where the audit port rejects that.
  pub use_credential-UseTrail :
      (input : UseInput) (operation : SecretValue → Bool) (w : World S)
      → let result = use_credential cipher storage options input operation w in
        let entitled = IsEntitled options input.actor input.owner_user_id use_secret in
        (entitled × Ended UseTrail w result)
        ⊎ ((¬ entitled) × Ended (RefusedTrail credential_not_found) w result)
  unfolding use_credential
  use_credential-UseTrail input operation w =
      let right = may_access_iff options input.actor input.owner_user_id use_secret in
      elim (Bool-cases (may_access options input.actor input.owner_user_id use_secret)) [
        | inl yes_ ↦ inl (
          right.0 yes_,
          rw yes_
              (elim (audited_then options (subject_of input) credential_use started
                (use_started cipher storage options input operation) w w [] (Leaves-nil w)) [
                  | inl (w', e, l, _) ↦ rw e (use_started_trail input operation w w' l)
                  | inr (w', e, l) ↦ rw e ([], silent, l)
                ]),
        )
        | inr no_ ↦ inr (
          λ h. absurd (cc (no_, right.1 h)),
          rw no_ (
              last_record options (subject_of input) credential_use
                (RefusedTrail credential_not_found) denied (throw credential_not_found) _ w w _
                (λ _. refl) RefusedTrail.silent refused (Leaves-nil w)),
        )
      ]
