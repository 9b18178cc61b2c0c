-- ===== src/Security/Vault/Stored.antt =====
-- packages/security/src/index.ts: what `store` and `delete` do to the storage.
use choice_mind.Prelude.{
  String, ◌≡◌, ◌≢◌, ◌⊎◌, refl, sym, subst, ◌∙◌, inl, inr, Bool, Option, some, arith, Bool-cases,
  Option-cases,
}
use choice_mind.Security.Actors.{delete_secret}
use choice_mind.Security.Vault.Monad.{
  World, Outcome, returned, thrown, Storage, Cipher, VaultOptions, append_credential_audit, M, ◌>>◌,
  bind_outcome, catch, give, throw, AuditResult, started, allowed, denied, failed,
  credential_delete, credential_delete_failed, credential_not_found,
}
use choice_mind.Security.Vault.{
  StoreCredentialInput, UseInput, StoreRandomness, encrypted_record, may_access, store,
  delete_credential, check_system, check_system_record, load_record, delete_started, run_delete,
  subject_of,
}

module _ {S : Type 0} (cipher : Cipher) (storage : Storage S) (options : VaultOptions) where
  pub store-storage :
      (input : StoreCredentialInput) (random : StoreRandomness) (w : World S)
      → let after = (store cipher storage options input random w).1 in
        (after.storage ≡ w.storage)
        ⊎ (storage.save (encrypted_record cipher options input random) w.storage
            ≡ some after.storage)
  unfolding store append_credential_audit
  store-storage input random w = ground arith

  abbrev audited : UseInput → AuditResult → M S (Unit {0})
  audited input result = append_credential_audit options (subject_of input) credential_delete result

  audited-storage :
      (input : UseInput) (result : AuditResult) (w : World S)
      → (audited input result w).1.storage ≡ w.storage
  unfolding append_credential_audit
  audited-storage input result w = ground arith

  check_system-storage :
      (input : UseInput) (w : World S)
      → (check_system cipher storage options input w).1.storage ≡ w.storage
  unfolding check_system check_system_record load_record append_credential_audit
  check_system-storage input w = ground arith

  removed-storage :
      (input : UseInput) (b : Bool) (w : World S)
      → (catch
          (audited input allowed >> give b)
          (λ _. audited input failed >> throw credential_delete_failed)
          w).1.storage
        ≡ w.storage
  unfolding append_credential_audit
  removed-storage input b w = ground arith

  -- The deletion left the storage as it was and did not return, or the port's deletion went through.
  abbrev pub IsDone : UseInput → S → Outcome Bool × World S → Type 0
  IsDone input s (o, w) =
      ((w.storage ≡ s) × ((b : Bool) → o ≢ returned b))
      ⊎ ((remove : String → String → S → Option (Bool × S)) × (b : Bool) × (storage.delete
            ≡ some remove)
          × (remove input.credential_id input.owner_user_id s ≡ some (b, w.storage)))

  after_unit :
      (input : UseInput) (s : S) (p : Outcome (Unit {0}) × World S) (k : M S Bool)
      → p.1.storage ≡ s
      → ((w : World S) → w.storage ≡ s → IsDone input s (k w))
      → IsDone input s (bind_outcome p (λ _. k))
  after_unit input s (returned _, w) k same next = next w same
  after_unit input s (thrown e, w) k same next = inl (same, λ b q. cc)

  not_deleted :
      (input : UseInput) (s : S) (w : World S)
      → w.storage ≡ s
      → IsDone input s ((audited input failed >> throw credential_delete_failed) w)
  not_deleted input s w same =
      after_unit input s (audited input failed w) (throw credential_delete_failed)
        (audited-storage input failed w ∙ same) (λ w' same'. inl (same', λ b q. cc))

  delete_started-storage :
      (input : UseInput) (s : S) (w : World S)
      → w.storage ≡ s
      → IsDone input s (delete_started cipher storage options input w)
  unfolding delete_started
  delete_started-storage input s w same = elim (Option-cases storage.delete) [
    | inl missing ↦
        rw (missing, delete_started, run_delete) (rw missing at not_deleted input s w same)
    | inr (remove, e) ↦
        elim (Option-cases (remove input.credential_id input.owner_user_id w.storage)) [
          | inl rejected ↦
              rw (e, delete_started, run_delete) (rw rejected (rw e at not_deleted input s w same))
          | inr ((b, s'), removed) ↦
              rw (e, delete_started, run_delete)
                (rw removed (
                  inr (
                    remove,
                    b,
                    refl,
                    subst (λ z. remove input.credential_id input.owner_user_id s ≡ some (b, z))
                        (sym (removed-storage input b (record w { storage = s' })))
                        (subst
                          (λ z. remove input.credential_id input.owner_user_id z ≡ some (b, s'))
                          same removed),
                  )))
        ]
  ]

  -- A deletion that returns has gone through the port's deletion; one that fails may have, too.
  pub delete_credential-storage :
      (input : UseInput) (w : World S)
      → IsDone input w.storage (delete_credential cipher storage options input w)
  unfolding delete_credential
  delete_credential-storage input w =
      elim (Bool-cases (may_access options input.actor input.owner_user_id delete_secret)) [
        | inr stranger ↦ rw stranger (
            after_unit input w.storage (audited input denied w) (throw credential_not_found)
              (audited-storage input denied w) (λ w' same. inl (same, λ b q. cc)))
        | inl right ↦ rw right (
            after_unit input w.storage (check_system cipher storage options input w) _
              (check_system-storage input w)
              (λ w' same.
                after_unit input w.storage (audited input started w') _
                  (audited-storage input started w' ∙ same)
                  (λ w'' same'. delete_started-storage input w.storage w'' same')))
      ]
