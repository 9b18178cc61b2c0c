-- ===== src/SourceAccess/Tests.antt =====
-- Completing a login on a sample, with the vault of packages/security over a list of records.
use mathlib.Core.Option.{some-injective}
use choice_mind.Prelude.{
  String, ◌≡◌, ◌≢◌, refl, sym, subst, ap, ◌∙◌, inl, inr, Bool, true, not, ◌&&◌, List, [], ◌∷◌, map,
  Option, none, some, Any, Bool-cases, ◌==◌, eq_iff, select, any, find,
}
use choice_mind.Security.Actors.{user, source_credential}
use choice_mind.Security.Vault.{encrypted_record, store, delete_credential, may_access}
use choice_mind.Security.Vault.Monad as Vault
use choice_mind.Security.Vault.Monad.{
  EncryptedCredentialRecord, Storage, SecretValue, VaultError, Outcome, returned, thrown,
  append_credential_audit,
}
use choice_mind.Security.Tests.{toy_cipher, options, random}
use choice_mind.SourceAccess.Tables.{
  active, waiting_challenge, CompleteLoginCommand, VaultPort, World,
}
use choice_mind.SourceAccess.Logins.{complete_login, delete_input}
use choice_mind.SourceAccess.Vaults.{StorageLaws, credential_vault, credential_vault-HoldsLaws}
use choice_mind.SourceAccess.Secrets.{NoOrphan, IsKeyed, WaitsClean}
use choice_mind.SourceAccess.Secrets.Completions.{complete_login-NoOrphan}

abbrev Records : Type 0
Records = List EncryptedCredentialRecord

abbrev is_record : String → String → EncryptedCredentialRecord → Bool
is_record id owner r = r.credential_id == id && r.owner_user_id == owner

abbrev list_storage : Storage Records
list_storage = record {
  save = λ r s. some (r ∷ s);
  load = λ id owner s. returned (find (is_record id owner) s);
  delete =
      some (λ id owner s.
        some (any (is_record id owner) s, select (λ r. not (is_record id owner r)) s));
}

abbrev Stored : Records → String → Type 0
Stored s x = Any (λ r. (r.credential_id ≡ x) × (r.owner_user_id ≡ "u1")) s

left-Stored :
    (id x : String) (s : Records)
    → Stored (select (λ r. not (is_record id "u1" r)) s) x
    → Stored s x × (x ≢ id)
left-Stored id x [] h = absurd h
left-Stored id x (r ∷ s) h = elim (Bool-cases (is_record id "u1" r)) [
  | inl e ↦ let (i, n) = left-Stored id x s (rw e at h) in (inr i, n)
  | inr e ↦ elim (rw e at h) [
    | inl (same, own) ↦ (
      inl (same, own),
      λ q. cc (e, (eq_iff r.credential_id id).1 (same ∙ q), (eq_iff r.owner_user_id "u1").1 own),
    )
    | inr rest ↦ let (i, n) = left-Stored id x s rest in (inr i, n)
  ]
]

removed-Stored :
    (remove : String → String → Records → Option (Bool × Records)) (id x : String) (b : Bool)
    (s s' : Records)
    → list_storage.delete ≡ some remove
    → remove id "u1" s ≡ some (b, s')
    → Stored s' x
    → Stored s x × (x ≢ id)
removed-Stored remove id x b s s' e done h =
    let same = some-injective _ remove e in
    let done' : some (any (is_record id "u1") s, select (λ r. not (is_record id "u1" r)) s)
        ≡ some (b, s') =
      subst
        (λ (f : String → String → Records → Option (Bool × Records)). f id "u1" s ≡ some (b, s'))
        (sym same) done in
    left-Stored id x s (
      subst (λ z. Stored z x) (sym (ap (λ (p : Bool × Records). p.1) (some-injective _ _ done'))) h)

list_storage_laws : StorageLaws list_storage Stored "u1"
list_storage_laws = record {
  save_adds = λ r s s' x e h. elim (subst (λ z. Stored z x) (sym (some-injective (r ∷ s) s' e)) h) [
    | inl (same, own) ↦ inr (sym same)
    | inr i ↦ inl i
  ];
  delete_keeps = λ remove id b s s' x e done h. (removed-Stored remove id x b s s' e done h).0;
  delete_removes =
      λ remove id b s s' e done h. (removed-Stored remove id id b s s' e done h).1 refl;
}

abbrev vault : VaultPort (Vault.World Records) (SecretValue → Bool)
vault = credential_vault toy_cipher list_storage options (λ w. random)

abbrev Holds : Vault.World Records → String → Type 0
Holds w x = Stored w.storage x

abbrev command : CompleteLoginCommand
command = record {
  owner_user_id = "u1";
  login_session_id = "s2";
  credential_secret = "cookie";
  correlation_id = "c";
  actor = record { object_id = 1; user_id = "u1"; role = user };
}

-- The account has a credential from an earlier login; a second login waits.
abbrev old_record : EncryptedCredentialRecord
old_record =
    encrypted_record toy_cipher options
      (record {
        credential_id = "old";
        owner_user_id = "u1";
        secret = "earlier";
        secret_type = source_credential;
        actor = command.actor;
        correlation_id = "b";
      })
      random

abbrev world : World (Vault.World Records)
world = record {
  logins =
      record {
        login_session_id = "s2";
        owner_user_id = "u1";
        source_id = "shop";
        source_account_id = "a1";
        official_login_url = "https://shop.example/login";
        status = waiting_challenge;
        replaced_credential_id = none;
        created_at = 10;
        updated_at = 10;
      }
      ∷ [];
  credentials =
      record {
        owner_user_id = "u1";
        source_id = "shop";
        source_account_id = "a1";
        credential_id = "old";
        status = active;
        created_at = 1;
        updated_at = 1;
      }
      ∷ [];
  vault = record { storage = old_record ∷ []; audit = []; ticks = 0; revealed = []; lease = none };
}

world-IsKeyed : IsKeyed command world
world-IsKeyed = record {
  one_session = λ l l' i i' _ _. elim i [
    | inl e ↦ elim i' [ inl e' ↦ sym e ∙ e' | inr n ↦ absurd n ]
    | inr n ↦ absurd n
  ];
  one_account = λ s a r r' i i' _ _. elim i [
    | inl e ↦ elim i' [ inl e' ↦ sym e ∙ e' | inr n ↦ absurd n ]
    | inr n ↦ absurd n
  ];
}

world-WaitsClean : WaitsClean world
world-WaitsClean = (λ _. refl, tt)

world-known : NoOrphan Holds world
unfolding encrypted_record
world-known x h = elim h [ inl (e, own) ↦ inl (inl e) | inr n ↦ absurd n ]

-- Deleting does not fail: the owner may, and nothing is rejected.
deletes :
    (v : Vault.World Records) (e : VaultError)
    → (vault.delete (delete_input vault none "new" command) v).0 ≢ thrown e
unfolding credential_vault delete_credential append_credential_audit may_access
deletes v e q = cc q

-- The new secret takes the place of the old one, which is deleted.
completed_vault :
    map
      (λ r. r.credential_id)
      (complete_login vault none command true "new" 20 world).1.vault.storage
    ≡ "new" ∷ []
unfolding complete_login credential_vault store delete_credential append_credential_audit may_access
    encrypted_record
completed_vault = refl

complete_login-NoOrphan_example :
    let after = (complete_login vault none command true "new" 20 world).1 in
    NoOrphan Holds after × WaitsClean after
complete_login-NoOrphan_example =
    complete_login-NoOrphan vault none Holds command
      (credential_vault-HoldsLaws toy_cipher list_storage options (λ w. random) Stored "u1"
        list_storage_laws)
      "new" deletes 20 world world-IsKeyed world-WaitsClean true world-known
