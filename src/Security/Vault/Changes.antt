-- ===== src/Security/Vault/Changes.antt =====
-- packages/security/src/index.ts: the audit trail that `store` leaves.
use choice_mind.Prelude.{
  String, ◌⊎◌, refl, inl, inr, not, ◌||◌, eq_iff, arith, List, [], ◌∷◌, Option-cases, Bool-cases,
  ◌==◌,
}
use choice_mind.Security.Actors.{is_system}
use choice_mind.Security.Vault.Monad.{
  credential_store, AuditResult, started, allowed, denied, failed, credential_owner_mismatch,
  credential_store_failed, audit_rejected, World, Outcome, returned, thrown, throw, give, Storage,
  Cipher, VaultOptions,
}
use choice_mind.Security.Vault.Audit.{
  Leaves, Ended, Leaves-nil, audited_then, last_record, failing_handler,
}
use choice_mind.Security.Vault.Rights.{IsOwner, RefusedTrail, refused}
use choice_mind.Security.Vault.{
  store, StoreCredentialInput, store_started, save_record, encrypted_record, StoreRandomness,
  store_subject,
}

-- The trails of a `store` that runs, by outcome.
pub data StoreTrail : Outcome String → List AuditResult → Type 0 where
  not_saved : StoreTrail (thrown credential_store_failed) (started ∷ failed ∷ [])
  succeeded : (id : String) → StoreTrail (returned id) (started ∷ allowed ∷ [])
  silent : StoreTrail (thrown audit_rejected) []
  cut_short : StoreTrail (thrown audit_rejected) (started ∷ [])

module _ {S : Type 0} (cipher : Cipher) (storage : Storage S) (options : VaultOptions) where
  store_started_trail :
      (input : StoreCredentialInput) (random : StoreRandomness) (w₀ w : World S)
      → Leaves w₀ (started ∷ []) w
      → Ended StoreTrail w₀ (store_started cipher storage options input random w)
  unfolding store_started
  store_started_trail input random w₀ w (es, added, results) =
      elim (Option-cases (storage.save (encrypted_record cipher options input random) w.storage)) [
        | inl rejected ↦
            rw (rejected, store_started, save_record)
              (failing_handler options (store_subject input) credential_store StoreTrail failed
                credential_store_failed _ w₀ w _ StoreTrail.cut_short not_saved
                (es, added, results))
        | inr (s, saved) ↦
            rw (saved, store_started, save_record)
              (last_record options (store_subject input) credential_store StoreTrail allowed
                (give input.credential_id) _ w₀ (record w { storage = s }) _ (λ _. refl)
                StoreTrail.cut_short (StoreTrail.succeeded input.credential_id)
                (es, added, results))
      ]

  -- A store by the owner, who is not the system, leaves STARTED and then ALLOWED or FAILED, as its outcome
  -- says; only a record that the audit port rejects is missing. A store by anybody else leaves DENIED alone,
  -- or nothing where the audit port rejects that.
  pub store-StoreTrail :
      (input : StoreCredentialInput) (random : StoreRandomness) (w : World S)
      → let result = store cipher storage options input random w in
        let own = IsOwner input.actor input.owner_user_id in
        (own × Ended StoreTrail w result)
        ⊎ ((¬ own) × Ended (RefusedTrail credential_owner_mismatch) w result)
  unfolding store
  store-StoreTrail input random w =
      let same = eq_iff input.actor.user_id input.owner_user_id in
      elim (Bool-cases
        (is_system input.actor.role || not (input.actor.user_id == input.owner_user_id))) [
          | inr owner ↦ inl (
            ground arith,
            rw owner
                (elim (audited_then options (store_subject input) credential_store started
                  (store_started cipher storage options input random) w w [] (Leaves-nil w)) [
                    | inl (w', e, l, _) ↦ rw e (store_started_trail input random w w' l)
                    | inr (w', e, l) ↦ rw e ([], StoreTrail.silent, l)
                  ]),
          )
          | inl stranger ↦ inr (
            ground arith,
            rw stranger (
                last_record options (store_subject input) credential_store
                  (RefusedTrail credential_owner_mismatch) denied (throw credential_owner_mismatch)
                  _ w w _ (λ _. refl) RefusedTrail.silent refused (Leaves-nil w)),
          )
        ]
