-- ===== src/Security/Vault/Isolation.antt =====
-- What a caller who is neither the owner nor the system can do.
use choice_mind.Prelude.{◌≡◌, ◌≢◌, ◌⊎◌, Bool, false, arith, eq_iff}
use choice_mind.Security.Actors.{is_system}
use choice_mind.Security.Vault.Monad.{
  SecretValue, World, Outcome, thrown, Storage, Cipher, VaultOptions, append_credential_audit,
  VaultError, credential_owner_mismatch, credential_not_found, audit_rejected,
}
use choice_mind.Security.Vault.{
  may_access, UseInput, use_credential, store, StoreCredentialInput, StoreRandomness,
  delete_credential,
}

-- The call failed as a refusal does, and the storage and the plaintexts handed out are as before.
abbrev pub Refused : {S A : Type 0} → VaultError → World S → Outcome A × World S → Type 0
Refused e w (o, w') =
    ((o ≡ thrown e) ⊎ (o ≡ thrown audit_rejected))
    × (w'.storage ≡ w.storage)
    × (w'.revealed ≡ w.revealed)

module _ {S : Type 0} (cipher : Cipher) (storage : Storage S) (options : VaultOptions) where
  -- Someone who is neither the owner nor the system cannot store, use or delete the owner's credential:
  -- the call fails with its one error of refusal, or with that of the audit port, whether the credential
  -- exists or not, and the storage and the plaintexts handed out stay as they were.
  pub vault-Refused :
      (input : StoreCredentialInput) (random : StoreRandomness) (request : UseInput)
      (operation : SecretValue → Bool) (w : World S)
      → is_system input.actor.role ≡ false
      → input.actor.user_id ≢ input.owner_user_id
      → is_system request.actor.role ≡ false
      → request.actor.user_id ≢ request.owner_user_id
      → Refused credential_owner_mismatch w (store cipher storage options input random w)
        × Refused credential_not_found w (use_credential cipher storage options request operation w)
        × Refused credential_not_found w (delete_credential cipher storage options request w)
  unfolding store use_credential delete_credential append_credential_audit may_access
  vault-Refused input random request operation w person other person' other' =
      let a = eq_iff input.actor.user_id input.owner_user_id in
      let b = eq_iff request.actor.user_id request.owner_user_id in
      (ground (arith, a), ground (arith, b), ground (arith, b))
