-- ===== src/Security/Vault/RoundTrip.antt =====
-- What is stored is what a use gets back; and what a caller without the right can do.
use choice_mind.Prelude.{
  ℕ, ◌+◌, ◌≡◌, refl, ap, Bool, true, false, List, [], ◌∷◌, ◌++◌, some, arith, ◌==◌, eq_iff, eq_refl,
  if◌then◌else◌,
}
use choice_mind.Security.Actors.{use_secret, is_system}
use choice_mind.Security.Vault.Monad.{
  EncryptedCredentialRecord, CredentialAuditRecord, secret_operation_failed, SecretValue, World,
  returned, thrown, Storage, Cipher, VaultOptions, append_credential_audit, audit_record,
  credential_store, started, allowed,
}
use choice_mind.Security.Vault.{
  may_access, UseInput, use_credential, store, StoreCredentialInput, encrypted_record,
  decrypt_record, decrypt, StoreRandomness, record_matches, lease_of, reveal, associated_data,
  store_subject,
}

module _ (cipher : Cipher) (options : VaultOptions) where
  open cipher use {to_utf8}

  decrypt-encrypted :
      (key iv aad plaintext : List ℕ)
      → let sealed = cipher.encrypt_gcm key iv aad plaintext in
        decrypt cipher
          (cipher.to_base64 sealed.0)
          (cipher.to_base64 iv)
          (cipher.to_base64 sealed.1)
          key
          aad
        ≡ some plaintext
  unfolding decrypt
  decrypt-encrypted key iv aad plaintext =
      let sealed = cipher.encrypt_gcm key iv aad plaintext in
      rw
        (
          cipher.from_base64-to_base64 iv,
          cipher.from_base64-to_base64 sealed.0,
          cipher.from_base64-to_base64 sealed.1,
          decrypt,
        )
        (cipher.decrypt-encrypt key iv aad plaintext)

  -- Both layers of a record that `store` made open under the same master key.
  decrypt_record-encrypted_record :
      (input : StoreCredentialInput) (random : StoreRandomness)
      → decrypt_record cipher options (encrypted_record cipher options input random)
        ≡ some (to_utf8 input.secret)
  unfolding encrypted_record decrypt_record
  decrypt_record-encrypted_record input random =
      let aad = associated_data cipher input.credential_id input.owner_user_id input.secret_type in
      rw (decrypt-encrypted options.master_key random.key_iv aad random.data_key, decrypt_record)
        (decrypt-encrypted random.data_key random.secret_iv aad (to_utf8 input.secret))

module _ {S : Type 0} (cipher : Cipher) (storage : Storage S) (options : VaultOptions) where
  stored_world : StoreCredentialInput → World S → S → World S
  stored_world input w s =
      let entry = audit_record options (store_subject input) credential_store in
      record w {
        storage = s;
        audit = (w.audit ++ entry started w.ticks ∷ []) ++ entry allowed (w.ticks + 1) ∷ [];
        ticks = w.ticks + 1 + 1;
      }

  module _
      (accepts : (l : List CredentialAuditRecord) (e : CredentialAuditRecord)
        → options.audit_accepts l e ≡ true) where
    store_lem :
        (input : StoreCredentialInput) (random : StoreRandomness) (w : World S) (s : S)
        → is_system input.actor.role ≡ false
        → (input.actor.user_id == input.owner_user_id) ≡ true
        → storage.save (encrypted_record cipher options input random) w.storage ≡ some s
        → store cipher storage options input random w
          ≡ (returned input.credential_id, stored_world input w s)
    unfolding store append_credential_audit stored_world
    store_lem input random w s person same saved = grind (arith, accepts)

    use_credential_lem :
        (input : UseInput) (operation : SecretValue → Bool) (w : World S)
        (r : EncryptedCredentialRecord) (plaintext : List ℕ)
        → may_access options input.actor input.owner_user_id use_secret ≡ true
        → storage.load input.credential_id input.owner_user_id w.storage ≡ returned (some r)
        → record_matches options input r ≡ true
        → decrypt_record cipher options r ≡ some plaintext
        → let after = use_credential cipher storage options input operation w in
          (after.0 ≡ (
            if operation (lease_of plaintext) then returned tt else thrown secret_operation_failed))
          × (after.1.revealed ≡ w.revealed ++ plaintext ∷ [])
    unfolding use_credential append_credential_audit
    use_credential_lem input operation w r plaintext right loaded same opened =
        (grind (arith, accepts), grind (arith, accepts))

  -- The owner stores a secret and uses it. If the storage takes the record and gives it back, and the
  -- audit port takes every record, the callback gets a lease that reveals exactly the secret, and
  -- the use succeeds if the callback does.
  pub use_credential-store :
      (input : StoreCredentialInput) (random : StoreRandomness) (operation : SecretValue → Bool)
      (w : World S) (s : S)
      → is_system input.actor.role ≡ false
      → input.actor.user_id ≡ input.owner_user_id
      → ((l : List CredentialAuditRecord) (e : CredentialAuditRecord)
          → options.audit_accepts l e ≡ true)
      → storage.save (encrypted_record cipher options input random) w.storage ≡ some s
      → storage.load input.credential_id input.owner_user_id s
        ≡ returned (some (encrypted_record cipher options input random))
      → let stored = store cipher storage options input random w in
        let request : UseInput = record {
          credential_id = input.credential_id;
          owner_user_id = input.owner_user_id;
          actor = input.actor;
          correlation_id = input.correlation_id;
        } in
        let lease = lease_of (cipher.to_utf8 input.secret) in
        let after = use_credential cipher storage options request operation stored.1 in
        (stored.0 ≡ returned input.credential_id)
        × (after.0 ≡ (if operation lease then returned tt else thrown secret_operation_failed))
        × (after.1.revealed ≡ w.revealed ++ cipher.to_utf8 input.secret ∷ [])
        × (reveal cipher.from_utf8 lease ≡ returned input.secret)
  unfolding stored_world may_access record_matches reveal encrypted_record
  use_credential-store input random operation w s person owner accepts saved loaded =
      let same = (eq_iff input.actor.user_id input.owner_user_id).1 owner in
      let stored = store_lem accepts input random w s person same saved in
      let request : UseInput = record {
        credential_id = input.credential_id;
        owner_user_id = input.owner_user_id;
        actor = input.actor;
        correlation_id = input.correlation_id;
      } in
      let right : may_access options input.actor input.owner_user_id use_secret ≡ true =
        ground arith in
      let matches : record_matches options request (encrypted_record cipher options input random)
          ≡ true =
        ground (arith, eq_refl input.owner_user_id, eq_refl input.credential_id) in
      let after =
        use_credential_lem accepts request operation (stored_world input w s)
          (encrypted_record cipher options input random) (cipher.to_utf8 input.secret) right loaded
          matches (decrypt_record-encrypted_record cipher options input random) in
      rw stored (refl, after.0, after.1, ap returned (cipher.from_utf8-to_utf8 input.secret))
