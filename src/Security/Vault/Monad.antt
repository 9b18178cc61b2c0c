-- ===== src/Security/Vault/Monad.antt =====
-- packages/security/src/index.ts: the records of the vault, its ports, and calls that may throw.
use choice_mind.Prelude.{
  ℕ, String, ◌+◌, ◌≡◌, refl, ◌⊎◌, inl, inr, Bool, List, [], ◌∷◌, ◌++◌, Option, none, some,
  if◌then◌else◌,
}
use choice_mind.Security.Actors.{SecurityActor, SecretType, SystemCredentialAccess}

pub record EncryptedCredentialRecord : Type 0 where
  pub credential_id : String
  pub owner_user_id : String
  pub secret_type : SecretType
  pub ciphertext : String
  pub ciphertext_iv : String
  pub ciphertext_tag : String
  pub wrapped_data_key : String
  pub wrapped_data_key_iv : String
  pub wrapped_data_key_tag : String

pub data AuditAction : Type 0 where
  credential_store credential_use credential_delete : AuditAction

pub data AuditResult : Type 0 where
  started allowed denied failed : AuditResult

-- The audited object is always the credential, by its id.
pub record CredentialAuditRecord : Type 0 where
  pub actor : SecurityActor
  pub action : AuditAction
  pub credential_id : String
  pub result : AuditResult
  pub correlation_id : String
  pub occurred_at : String

-- The vault's own errors, and those of the ports that it calls.
pub data VaultError : Type 0 where
  credential_owner_mismatch credential_store_failed credential_not_found : VaultError
  credential_use_failed secret_operation_failed credential_delete_failed : VaultError
  credential_delete_unsupported secret_lease_expired : VaultError
  audit_rejected storage_rejected decryption_failed operation_rejected : VaultError

pub data Outcome (A : Type 0) : Type 0 where
  returned : A → Outcome A
  thrown : VaultError → Outcome A

-- The plaintext bytes, gone once the value is disposed of.
pub record SecretValue : Type 0 where
  pub plaintext : Option (List ℕ)

-- The storage port. A rejected `save` or `delete` leaves the storage as it was, and `delete` may be
-- missing.
pub record Storage (S : Type 0) : Type 0 where
  pub save : EncryptedCredentialRecord → S → Option S
  pub load : String → String → S → Outcome (Option EncryptedCredentialRecord)
  pub delete : Option (String → String → S → Option (Bool × S))

-- AES-256-GCM, base64 and UTF-8 as the platform gives them, with the round trips that Node documents.
pub record Cipher : Type 0 where
  pub encrypt_gcm : (key iv aad plaintext : List ℕ) → List ℕ × List ℕ
  pub decrypt_gcm : (key iv aad tag ciphertext : List ℕ) → Option (List ℕ)
  pub to_base64 : List ℕ → String
  pub from_base64 : String → List ℕ
  pub to_utf8 : String → List ℕ
  pub from_utf8 : List ℕ → String
  pub decrypt-encrypt :
      (key iv aad plaintext : List ℕ)
      → decrypt_gcm key iv aad
          (encrypt_gcm key iv aad plaintext).1
          (encrypt_gcm key iv aad plaintext).0
        ≡ some plaintext
  pub from_base64-to_base64 : (bytes : List ℕ) → from_base64 (to_base64 bytes) ≡ bytes
  pub from_utf8-to_utf8 : (text : String) → from_utf8 (to_utf8 text) ≡ text

-- `appendAuditRecord` accepts or rejects a record after the ones before it; `now` is the text of its
-- nth answer.
pub record VaultOptions : Type 0 where
  pub master_key : List ℕ
  pub system_access : Option SystemCredentialAccess
  pub audit_accepts : List CredentialAuditRecord → CredentialAuditRecord → Bool
  pub now : ℕ → String

-- What the calls change: the storage, the audit trail (oldest first), the clock's answers so far, the
-- plaintexts that callbacks were run with, and the last lease as it stands now.
pub record World (S : Type 0) : Type 0 where
  pub storage : S
  pub audit : List CredentialAuditRecord
  pub ticks : ℕ
  pub revealed : List (List ℕ)
  pub lease : Option SecretValue

abbrev pub M : Type 0 → Type 0 → Type 0
M S A = World S → Outcome A × World S

abbrev pub give : {S A : Type 0} → A → M S A
give a w = (returned a, w)

abbrev pub throw : {S A : Type 0} → VaultError → M S A
throw e w = (thrown e, w)

abbrev pub bind_outcome : {S A B : Type 0} → Outcome A × World S → (A → M S B) → Outcome B × World S
bind_outcome (returned a, w) f = f a w
bind_outcome (thrown e, w) f = (thrown e, w)

infixl 5 ◌>>=◌ ◌>>◌
abbrev pub ◌>>=◌ : {S A B : Type 0} → M S A → (A → M S B) → M S B
◌>>=◌ m f w = bind_outcome (m w) f

abbrev pub ◌>>◌ : {S B : Type 0} → M S (Unit {0}) → M S B → M S B
m >> k = m >>= λ _. k

abbrev pub handle_outcome :
    {S A : Type 0} → Outcome A × World S → (VaultError → M S A) → Outcome A × World S
handle_outcome (returned a, w) h = (returned a, w)
handle_outcome (thrown e, w) h = h e w

-- `try { m } catch (e) { h(e) }`
abbrev pub catch : {S A : Type 0} → M S A → (VaultError → M S A) → M S A
catch m h w = handle_outcome (m w) h

-- What the three calls say of themselves in the trail.
pub record AuditSubject : Type 0 where
  pub credential_id : String
  pub actor : SecurityActor
  pub correlation_id : String

unfoldable pub audit_record :
    VaultOptions → AuditSubject → AuditAction → AuditResult → ℕ → CredentialAuditRecord
audit_record options subject action result tick = record {
  actor = subject.actor;
  action = action;
  credential_id = subject.credential_id;
  result = result;
  correlation_id = subject.correlation_id;
  occurred_at = options.now tick;
}

-- `appendCredentialAudit(options, input, action, result, now())`
unfoldable pub append_credential_audit :
    {S : Type 0} → VaultOptions → AuditSubject → AuditAction → AuditResult → M S (Unit {0})
append_credential_audit options subject action result w =
    let entry = audit_record options subject action result w.ticks in
    if options.audit_accepts w.audit entry
    then (returned tt, record w { audit = w.audit ++ entry ∷ []; ticks = w.ticks + 1 })
    else (thrown audit_rejected, record w { ticks = w.ticks + 1 })

pub loaded_cases :
    (o : Outcome (Option EncryptedCredentialRecord))
    → ((e : VaultError) × (o ≡ thrown e))
      ⊎ ((o ≡ returned none) ⊎ ((r : EncryptedCredentialRecord) × (o ≡ returned (some r))))
loaded_cases (thrown e) = inl (e, refl)
loaded_cases (returned none) = inr (inl refl)
loaded_cases (returned (some r)) = inr (inr (r, refl))
