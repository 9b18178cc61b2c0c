-- ===== src/Security/Vault.antt =====
-- packages/security/src/index.ts: `createCredentialVault` and `SecretValue`.
-- The cipher, the storage port, the audit port and the clock are parameters. A call is a function on
-- the world that returns a value or throws; `await` adds no interleaving here, since a call
-- touches only its own row.
pub mod Monad
pub mod Laws
pub mod Audit
pub mod Rights
pub mod Trails
pub mod Changes
pub mod Removals
pub mod Stored
pub mod RoundTrip
pub mod Isolation
use Prim.Native.Char.{nul}
use Prim.Native.String.{◌++◌ as ◌+text◌}
use choice_mind.Prelude.{
  ℕ, String, Bool, true, false, not, ◌&&◌, ◌||◌, List, [], ◌∷◌, ◌++◌, Option, none, some,
  if◌then◌else◌, ◌==◌, eqb, length, any,
}
use choice_mind.Security.Actors.{
  SecurityActor, Role, is_system, SecretType, provider_credential, source_credential,
  same_secret_type, SystemAction, use_secret, delete_secret, same_action, SystemCredentialAccess,
}
use Monad.{
  EncryptedCredentialRecord, CredentialAuditRecord, AuditAction, credential_store, credential_use,
  credential_delete, AuditResult, started, allowed, denied, failed, VaultError,
  credential_owner_mismatch, credential_store_failed, credential_not_found, credential_use_failed,
  secret_operation_failed, credential_delete_failed, credential_delete_unsupported, audit_rejected,
  storage_rejected, decryption_failed, secret_lease_expired, SecretValue, World, Outcome, returned,
  thrown, M, ◌>>=◌, ◌>>◌, give, throw, catch, Storage, Cipher, VaultOptions, AuditSubject,
  audit_record, append_credential_audit,
}

-- `new SecretValue(plaintext)`, `reveal` and `dispose`.
abbrev pub system_reads : Option SystemCredentialAccess → SecretType → Bool
system_reads none t = false
system_reads (some access) t = same_secret_type t access.secret_type

abbrev pub lease_of : List ℕ → SecretValue
lease_of plaintext = record { plaintext = some plaintext }

unfoldable pub dispose : SecretValue → SecretValue
dispose s = record { plaintext = none }

unfoldable pub reveal : (List ℕ → String) → SecretValue → Outcome String
reveal from_utf8 s = elim s.plaintext [
  | none ↦ thrown secret_lease_expired
  | some bytes ↦ returned (from_utf8 bytes)
]

-- The master key has 32 bytes, or no vault is made.
unfoldable pub create_credential_vault : VaultOptions → Option VaultOptions
create_credential_vault options = if eqb (length options.master_key) 32 then some options else none

unfoldable pub allows_system_access :
    Option SystemCredentialAccess → SecurityActor → SystemAction → Bool
allows_system_access none actor action = false
allows_system_access (some access) actor action =
    is_system actor.role
    && eqb actor.object_id access.actor.object_id
    && any (same_action action) access.actions

-- The caller's right: the system by its access, anybody else by being the owner.
unfoldable pub may_access : VaultOptions → SecurityActor → String → SystemAction → Bool
unfolding allows_system_access
may_access options actor owner_user_id action =
    if is_system actor.role
    then allows_system_access options.system_access actor action
    else actor.user_id == owner_user_id

pub record StoreCredentialInput : Type 0 where
  pub credential_id : String
  pub owner_user_id : String
  pub secret : String
  pub secret_type : SecretType
  pub actor : SecurityActor
  pub correlation_id : String

pub record UseInput : Type 0 where
  pub credential_id : String
  pub owner_user_id : String
  pub actor : SecurityActor
  pub correlation_id : String

-- The random bytes of one call of `store`.
pub record StoreRandomness : Type 0 where
  pub data_key : List ℕ
  pub secret_iv : List ℕ
  pub key_iv : List ℕ

abbrev secret_type_text : SecretType → String
secret_type_text provider_credential = "PROVIDER_CREDENTIAL"
secret_type_text source_credential = "SOURCE_CREDENTIAL"

abbrev nul_text : String
nul_text = String.◌∷◌ nul String.[]

-- `${credentialId}\u0000${ownerUserId}\u0000${secretType}`
unfoldable pub associated_text : String → String → SecretType → String
associated_text credential_id owner_user_id secret_type =
    credential_id
    +text (nul_text +text (owner_user_id +text (nul_text +text secret_type_text secret_type)))

abbrev subject_of : UseInput → AuditSubject
subject_of input = record {
  credential_id = input.credential_id;
  actor = input.actor;
  correlation_id = input.correlation_id;
}

abbrev store_subject : StoreCredentialInput → AuditSubject
store_subject input = record {
  credential_id = input.credential_id;
  actor = input.actor;
  correlation_id = input.correlation_id;
}

-- The stored record is the one asked for, and the system reads only records of its type.
unfoldable pub record_matches : VaultOptions → UseInput → EncryptedCredentialRecord → Bool
record_matches options input r =
    r.owner_user_id == input.owner_user_id
    && r.credential_id == input.credential_id
    && (not (is_system input.actor.role) || system_reads options.system_access r.secret_type)

module _ (cipher : Cipher) where
  open cipher use {encrypt_gcm, decrypt_gcm, to_base64, from_base64, to_utf8}

  abbrev pub associated_data : String → String → SecretType → List ℕ
  associated_data credential_id owner_user_id secret_type =
      to_utf8 (associated_text credential_id owner_user_id secret_type)

  -- The two calls of `encrypt`, under the data key and under the master key.
  unfoldable pub encrypted_record :
      VaultOptions → StoreCredentialInput → StoreRandomness → EncryptedCredentialRecord
  encrypted_record options input random =
      let aad = associated_data input.credential_id input.owner_user_id input.secret_type in
      let secret = encrypt_gcm random.data_key random.secret_iv aad (to_utf8 input.secret) in
      let key = encrypt_gcm options.master_key random.key_iv aad random.data_key in
      record {
        credential_id = input.credential_id;
        owner_user_id = input.owner_user_id;
        secret_type = input.secret_type;
        ciphertext = to_base64 secret.0;
        ciphertext_iv = to_base64 random.secret_iv;
        ciphertext_tag = to_base64 secret.1;
        wrapped_data_key = to_base64 key.0;
        wrapped_data_key_iv = to_base64 random.key_iv;
        wrapped_data_key_tag = to_base64 key.1;
      }

  -- `decrypt`, on the texts of a record.
  unfoldable pub decrypt : (ciphertext iv tag : String) (key aad : List ℕ) → Option (List ℕ)
  decrypt ciphertext iv tag key aad =
      decrypt_gcm key (from_base64 iv) aad (from_base64 tag) (from_base64 ciphertext)

  -- Both layers of a record; none where either does not authenticate.
  unfoldable pub decrypt_record : VaultOptions → EncryptedCredentialRecord → Option (List ℕ)
  unfolding decrypt
  decrypt_record options r =
      let aad = associated_data r.credential_id r.owner_user_id r.secret_type in
      elim (decrypt r.wrapped_data_key r.wrapped_data_key_iv r.wrapped_data_key_tag
        options.master_key aad) [
          | none ↦ none
          | some data_key ↦ decrypt r.ciphertext r.ciphertext_iv r.ciphertext_tag data_key aad
        ]

module _ {S : Type 0} (cipher : Cipher) (storage : Storage S) (options : VaultOptions) where
  save_record : EncryptedCredentialRecord → M S (Unit {0})
  save_record r w = elim (storage.save r w.storage) [
    | none ↦ (thrown storage_rejected, w)
    | some s ↦ (returned tt, record w { storage = s })
  ]

  load_record : String → String → M S (Option EncryptedCredentialRecord)
  load_record credential_id owner_user_id w =
      (storage.load credential_id owner_user_id w.storage, w)

  abbrev audited : AuditSubject → AuditAction → AuditResult → M S (Unit {0})
  audited = append_credential_audit options

  -- After the STARTED record: encrypt, save, and record how it went.
  store_started : StoreCredentialInput → StoreRandomness → M S String
  unfolding save_record
  store_started input random = do
    catch (save_record (encrypted_record cipher options input random)) (λ _. do
      audited (store_subject input) credential_store failed
      throw credential_store_failed)
    audited (store_subject input) credential_store allowed
    give input.credential_id

  unfoldable pub store : StoreCredentialInput → StoreRandomness → M S String
  unfolding store_started
  store input random =
      if is_system input.actor.role || not (input.actor.user_id == input.owner_user_id)
      then (do
        audited (store_subject input) credential_store denied
        throw credential_owner_mismatch)
      else (do audited (store_subject input) credential_store started; store_started input random)

  -- The callback runs on the live lease; it answers whether it resolved. The lease is disposed of
  -- in either case.
  run_callback : (SecretValue → Bool) → List ℕ → World S → Option VaultError × World S
  unfolding dispose
  run_callback operation plaintext w =
      let lease = lease_of plaintext in
      (
        if operation lease then none else some secret_operation_failed,
        record w { revealed = w.revealed ++ plaintext ∷ []; lease = some (dispose lease) },
      )

  -- The `try` around decryption and callback: the error to throw later, if any.
  run_operation :
      (SecretValue → Bool) → EncryptedCredentialRecord → World S → Option VaultError × World S
  unfolding run_callback
  run_operation operation r w = elim (decrypt_record cipher options r) [
    | none ↦ (some credential_use_failed, w)
    | some plaintext ↦ run_callback operation plaintext w
  ]

  finish_use : UseInput → Option VaultError × World S → Outcome (Unit {0}) × World S
  finish_use input (none, w) = (audited (subject_of input) credential_use allowed >> give tt) w
  finish_use input (some e, w) = (audited (subject_of input) credential_use failed >> throw e) w

  use_loaded : UseInput → (SecretValue → Bool) → Option EncryptedCredentialRecord → M S (Unit {0})
  unfolding run_operation finish_use
  use_loaded input operation none =
      audited (subject_of input) credential_use denied >> throw credential_not_found
  use_loaded input operation (some r) =
      if record_matches options input r
      then (λ w. finish_use input (run_operation operation r w))
      else (audited (subject_of input) credential_use denied >> throw credential_not_found)

  -- After the STARTED record: load, and go on with what was found.
  use_started : UseInput → (SecretValue → Bool) → M S (Unit {0})
  unfolding load_record use_loaded
  use_started input operation = do
    found ←
        catch (load_record input.credential_id input.owner_user_id)
          (λ _. do audited (subject_of input) credential_use failed; throw credential_use_failed)
    use_loaded input operation found

  unfoldable pub use_credential : UseInput → (SecretValue → Bool) → M S (Unit {0})
  unfolding use_started
  use_credential input operation =
      if may_access options input.actor input.owner_user_id use_secret
      then (do audited (subject_of input) credential_use started; use_started input operation)
      else (do audited (subject_of input) credential_use denied; throw credential_not_found)

  run_delete : String → String → M S Bool
  run_delete credential_id owner_user_id w = elim storage.delete [
    | none ↦ (thrown credential_delete_unsupported, w)
    | some remove ↦ elim (remove credential_id owner_user_id w.storage) [
      | none ↦ (thrown storage_rejected, w)
      | some (deleted, s) ↦ (returned deleted, record w { storage = s })
    ]
  ]

  -- The system deletes only a stored record of its type.
  check_system_record : UseInput → Option EncryptedCredentialRecord → M S (Unit {0})
  check_system_record input none =
      audited (subject_of input) credential_delete denied >> throw credential_not_found
  check_system_record input (some r) =
      if system_reads options.system_access r.secret_type
      then give tt
      else (audited (subject_of input) credential_delete denied >> throw credential_not_found)

  check_system : UseInput → M S (Unit {0})
  unfolding load_record check_system_record
  check_system input =
      if is_system input.actor.role
      then (do
        found ← catch (load_record input.credential_id input.owner_user_id) (λ _. do
          audited (subject_of input) credential_delete failed
          throw credential_delete_failed)
        check_system_record input found)
      else give tt

  -- After the STARTED record. The ALLOWED record is inside the `try`: where it is rejected, the call
  -- fails although the credential is gone.
  delete_started : UseInput → M S Bool
  unfolding run_delete
  delete_started input =
      catch
        (do
          deleted ← run_delete input.credential_id input.owner_user_id
          audited (subject_of input) credential_delete allowed
          give deleted)
        (λ _. do
          audited (subject_of input) credential_delete failed
          throw credential_delete_failed)

  unfoldable pub delete_credential : UseInput → M S Bool
  unfolding check_system delete_started
  delete_credential input =
      if may_access options input.actor input.owner_user_id delete_secret
      then (do
        check_system input
        audited (subject_of input) credential_delete started
        delete_started input)
      else (do audited (subject_of input) credential_delete denied; throw credential_not_found)
