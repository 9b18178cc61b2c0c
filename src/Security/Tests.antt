-- ===== src/Security/Tests.antt =====
-- packages/security/src/index.ts: the theorems at a vault over a list, with a toy cipher.
pub mod Codes
use choice_mind.Prelude.{
  ℕ, String, ◌≡◌, ◌≢◌, refl, ◌↔◌, ◌⊎◌, inl, inr, Bool, true, false, List, [], ◌∷◌, ◌++◌, Option,
  none, some, if◌then◌else◌, ◌==◌, eq_iff,
}
use choice_mind.Js.Sets.{In}
use choice_mind.Security.Actors.{
  SecurityActor, Role, SecretType, provider_credential, SystemCredentialAccess, use_secret,
  delete_secret,
}
use choice_mind.Security.RiskPolicy.{
  Operation, read_public_source, read_private_source, invoke_provider, PolicyDecision, allow, deny,
  Confirmation, PolicyInput, evaluate_risk_policy,
}
use choice_mind.Security.Egress.{
  EgressInput, EgressStamp, EgressEnvironment, EgressRecord, EgressEffect, appended, performed,
  refused, egress_record, execute,
}
use choice_mind.Security.Egress.Laws.{
  confirmation_for, IsLetOut, announcement, evaluate_risk_policy-allow_iff, execute-performed_iff,
  execute-write_denied,
}
use choice_mind.Security.Vault.Monad.{
  EncryptedCredentialRecord, CredentialAuditRecord, started, credential_use, Outcome, returned,
  thrown, secret_operation_failed, secret_lease_expired, credential_owner_mismatch,
  credential_not_found, SecretValue, World, Storage, VaultOptions, audit_record, credential_store,
  append_credential_audit,
}
use choice_mind.Security.Vault.{
  StoreCredentialInput, StoreRandomness, UseInput, store, use_credential, delete_credential,
  encrypted_record, lease_of, reveal, may_access, record_matches, decrypt_record,
}
use choice_mind.Security.Vault.Monad.{Cipher}
use choice_mind.Security.Vault.Audit.{Ended}
use choice_mind.Security.Vault.Laws.{use_credential-revealed, use_credential-lease}
use choice_mind.Security.Vault.Trails.{UseTrail, use_credential-UseTrail}
use choice_mind.Security.Vault.Rights.{IsOwner, IsEntitled, RefusedTrail}
use choice_mind.Security.Vault.Changes.{StoreTrail, store-StoreTrail}
use choice_mind.Security.Vault.Removals.{
  DeleteTrail, UncheckedTrail, IsCleared, IsWithheld, IsUnchecked, delete_credential-DeleteTrail,
}
use choice_mind.Security.Vault.RoundTrip.{use_credential-store}
use choice_mind.Security.Vault.Isolation.{Refused, vault-Refused}
use choice_mind.Security.Tests.Codes.{
  numbers_text, text_numbers, text_numbers-numbers_text, to_utf8, from_utf8, from_utf8-to_utf8,
}

-- The ciphertext is the plaintext and the tag is empty: enough for the round trip.
abbrev pub toy_cipher : Cipher
toy_cipher = record {
  encrypt_gcm = λ key iv aad plaintext. (plaintext, []);
  decrypt_gcm = λ key iv aad tag ciphertext. some ciphertext;
  to_base64 = numbers_text;
  from_base64 = text_numbers;
  to_utf8 = to_utf8;
  from_utf8 = from_utf8;
  decrypt-encrypt = λ key iv aad plaintext. refl;
  from_base64-to_base64 = text_numbers-numbers_text;
  from_utf8-to_utf8 = from_utf8-to_utf8;
}

-- The storage keeps the last record saved.
abbrev last_saved : Storage (Option EncryptedCredentialRecord)
last_saved = record {
  save = λ r s. some (some r);
  load = λ id owner s. returned s;
  delete = some (λ id owner s. some (true, none));
}

abbrev pub options : VaultOptions
options = record {
  master_key = [];
  system_access = none;
  audit_accepts = λ l e. true;
  now = λ n. "now";
}

abbrev empty_world : World (Option EncryptedCredentialRecord)
empty_world = record { storage = none; audit = []; ticks = 0; revealed = []; lease = none }

abbrev person : String → SecurityActor
person id = record { object_id = 1; user_id = id; role = Role.user }

abbrev secret_input : StoreCredentialInput
secret_input = record {
  credential_id = "k";
  owner_user_id = "ann";
  secret = "pw";
  secret_type = provider_credential;
  actor = person "ann";
  correlation_id = "o";
}

abbrev intruding_input : StoreCredentialInput
intruding_input = record secret_input { actor = person "bob" }

abbrev pub random : StoreRandomness
random = record { data_key = 1 ∷ []; secret_iv = 2 ∷ []; key_iv = 3 ∷ [] }

abbrev request : UseInput
request = record {
  credential_id = "k";
  owner_user_id = "ann";
  actor = person "ann";
  correlation_id = "o";
}

abbrev intrusion : UseInput
intrusion = record request { actor = person "bob" }

abbrev succeeds : SecretValue → Bool
succeeds lease = true

abbrev full_world : World (Option EncryptedCredentialRecord)
full_world = record empty_world {
  storage = some (encrypted_record toy_cipher options secret_input random);
}

use_credential-store_example :
    let stored = store toy_cipher last_saved options secret_input random empty_world in
    let lease = lease_of (to_utf8 "pw") in
    let after = use_credential toy_cipher last_saved options request succeeds stored.1 in
    (stored.0 ≡ returned "k")
    × (after.0 ≡ returned tt)
    × (after.1.revealed ≡ to_utf8 "pw" ∷ [])
    × (reveal from_utf8 lease ≡ returned "pw")
use_credential-store_example =
    use_credential-store toy_cipher last_saved options secret_input random succeeds empty_world
      (some (encrypted_record toy_cipher options secret_input random)) refl refl (λ l e. refl) refl
      refl

different : (s t : String) → (s == t) ≡ false → s ≢ t
different s t h e = cc ((eq_iff s t).1 e)

abbrev disposed : SecretValue
disposed = record { plaintext = none }

vault-Refused_example :
    Refused credential_owner_mismatch full_world
      (store toy_cipher last_saved options intruding_input random full_world)
    × Refused credential_not_found full_world
        (use_credential toy_cipher last_saved options intrusion succeeds full_world)
    × Refused credential_not_found full_world
        (delete_credential toy_cipher last_saved options intrusion full_world)
vault-Refused_example =
    vault-Refused toy_cipher last_saved options intruding_input random intrusion succeeds full_world
      refl (different "bob" "ann" refl) refl (different "bob" "ann" refl)

use_credential-UseTrail_example :
    let result = use_credential toy_cipher last_saved options request succeeds full_world in
    let entitled = IsEntitled options (person "ann") "ann" use_secret in
    (entitled × Ended UseTrail full_world result)
    ⊎ ((¬ entitled) × Ended (RefusedTrail credential_not_found) full_world result)
use_credential-UseTrail_example =
    use_credential-UseTrail toy_cipher last_saved options request succeeds full_world

store-StoreTrail_example :
    let result = store toy_cipher last_saved options secret_input random empty_world in
    let own = IsOwner (person "ann") "ann" in
    (own × Ended StoreTrail empty_world result)
    ⊎ ((¬ own) × Ended (RefusedTrail credential_owner_mismatch) empty_world result)
store-StoreTrail_example =
    store-StoreTrail toy_cipher last_saved options secret_input random empty_world

delete_credential-DeleteTrail_example :
    let result = delete_credential toy_cipher last_saved options request full_world in
    let entitled = IsEntitled options (person "ann") "ann" delete_secret in
    let refused_alone = Ended (RefusedTrail credential_not_found) full_world result in
    (entitled
      × IsCleared toy_cipher last_saved options request full_world
      × Ended DeleteTrail full_world result)
    ⊎ (((¬ entitled) × refused_alone)
        ⊎ ((entitled × IsWithheld toy_cipher last_saved options request full_world × refused_alone)
            ⊎ (entitled
                × IsUnchecked toy_cipher last_saved options request full_world
                × Ended UncheckedTrail full_world result)))
delete_credential-DeleteTrail_example =
    delete_credential-DeleteTrail toy_cipher last_saved options request full_world

abbrev used : World (Option EncryptedCredentialRecord)
used = (use_credential toy_cipher last_saved options request succeeds full_world).1

used_lease : used.lease ≡ some disposed
unfolding use_credential append_credential_audit may_access record_matches decrypt_record
    encrypted_record
used_lease = refl

use_credential-revealed_example :
    (used.revealed ≡ [])
    ⊎ ((r : EncryptedCredentialRecord) × (plaintext : List ℕ) × (used.revealed ≡ plaintext ∷ [])
        × (may_access options (person "ann") "ann" use_secret ≡ true)
        × (true ≡ true)
        × (returned full_world.storage ≡ returned (some r))
        × (record_matches options request r ≡ true)
        × (decrypt_record toy_cipher options r ≡ some plaintext))
use_credential-revealed_example =
    use_credential-revealed toy_cipher last_saved options request succeeds full_world

use_credential-lease_example :
    (full_world.lease ≡ some disposed) ⊎ (reveal from_utf8 disposed ≡ thrown secret_lease_expired)
use_credential-lease_example =
    use_credential-lease toy_cipher last_saved options request succeeds full_world disposed
      used_lease

abbrev answer : Option ℕ
answer = some 1

abbrev outside : EgressEnvironment
outside = record {
  to_upper_case = λ text. text;
  url_origin = λ text. some text;
  append_accepts = λ entry. true;
}

abbrev public_read : EgressInput
public_read = record {
  user_id = "ann";
  operation_id = "op";
  operation = read_public_source;
  confirmation = none;
  correlation_id = "o";
  destination_url = "https://example.org";
  method = "GET";
}

abbrev stamp : EgressStamp
stamp = record { egress_id = "x"; occurred_at = "now" }

execute-performed_iff_example :
    let effects = (execute outside public_read stamp answer).1 in
    (In performed effects ↔ ((origin : String) × IsLetOut outside public_read stamp origin))
    × (((origin : String)
          → IsLetOut outside public_read stamp origin
          → effects ≡ appended (announcement outside public_read stamp origin) ∷ performed ∷ [])
        × ((¬ In performed effects) → effects ≡ []))
execute-performed_iff_example = execute-performed_iff outside public_read stamp answer

execute-write_denied_example :
    execute outside (record public_read { method = "POST" }) stamp answer ≡ (refused deny, [])
execute-write_denied_example =
    execute-write_denied outside (record public_read { method = "POST" }) stamp answer
      (different "POST" "GET" refl) (different "POST" "HEAD" refl) (λ h. cc h)

abbrev provider_call : PolicyInput
provider_call = record {
  operation = invoke_provider;
  operation_id = "op";
  user_id = "ann";
  confirmation = some (record { operation_id = "op"; user_id = "ann" });
}

evaluate_risk_policy-allow_iff_example : ((evaluate_risk_policy provider_call).decision ≡ allow) ↔ (
    (invoke_provider ≡ read_public_source)
    ⊎ (((invoke_provider ≡ read_private_source) ⊎ (invoke_provider ≡ invoke_provider))
        × (provider_call.confirmation ≡ some (confirmation_for provider_call))))
evaluate_risk_policy-allow_iff_example = evaluate_risk_policy-allow_iff provider_call
