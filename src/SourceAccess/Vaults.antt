-- ===== src/SourceAccess/Vaults.antt =====
-- packages/source-access/src/index.ts over packages/security/src/index.ts: the vault that is handed in.
use choice_mind.Prelude.{String, ◌≡◌, ◌⊎◌, refl, subst, inl, inr, Bool, Option, some}
use choice_mind.Security.Vault.Monad.{
  SecretValue, World, Outcome, returned, thrown, EncryptedCredentialRecord, Storage, Cipher,
  VaultOptions,
}
use choice_mind.Security.Vault.{
  StoreRandomness, encrypted_record, store, use_credential, delete_credential,
}
use choice_mind.Security.Vault.Stored.{store-storage, delete_credential-storage}
use choice_mind.SourceAccess.Tables.{VaultPort}
use choice_mind.SourceAccess.Secrets.{HoldsLaws}

-- What is relied on of a storage: which ids it holds for an owner. Saving adds at most the record's id,
-- deleting adds none, and a deletion that is not rejected has removed its own.
pub record StorageLaws {S : Type 0} (storage : Storage S) (Stored : S → String → Type 0)
    (owner_user_id : String) : Type 0 where
  pub save_adds :
      (r : EncryptedCredentialRecord) (s s' : S) (x : String)
      → storage.save r s ≡ some s'
      → Stored s' x
      → Stored s x ⊎ (x ≡ r.credential_id)
  pub delete_keeps :
      (remove : String → String → S → Option (Bool × S)) (id : String) (b : Bool) (s s' : S)
      (x : String)
      → storage.delete ≡ some remove
      → remove id owner_user_id s ≡ some (b, s')
      → Stored s' x
      → Stored s x
  pub delete_removes :
      (remove : String → String → S → Option (Bool × S)) (id : String) (b : Bool) (s s' : S)
      → storage.delete ≡ some remove
      → remove id owner_user_id s ≡ some (b, s')
      → ¬ Stored s' id

module _ {S : Type 0} (cipher : Cipher) (storage : Storage S) (options : VaultOptions)
    (random : World S → StoreRandomness) where
  answered_unit : Outcome String × World S → Outcome (Unit {0}) × World S
  answered_unit (returned id, w) = (returned tt, w)
  answered_unit (thrown e, w) = (thrown e, w)

  answered_unit-world : (p : Outcome String × World S) → (answered_unit p).1 ≡ p.1
  unfolding answered_unit
  answered_unit-world (returned id, w) = refl
  answered_unit-world (thrown e, w) = refl

  -- `createCredentialVault(options)` as the vault of source access.
  unfoldable pub credential_vault : VaultPort (World S) (SecretValue → Bool)
  unfolding answered_unit
  credential_vault = record {
    store = λ input w. answered_unit (store cipher storage options input (random w) w);
    use_secret = λ input operation w. use_credential cipher storage options input operation w;
    delete = λ input w. delete_credential cipher storage options input w;
  }

  -- Over such a storage the vault obeys the laws that source access relies on.
  pub credential_vault-HoldsLaws :
      (Stored : S → String → Type 0) (owner_user_id : String)
      → StorageLaws storage Stored owner_user_id
      → HoldsLaws credential_vault (λ w x. Stored w.storage x) owner_user_id
  unfolding credential_vault
  credential_vault-HoldsLaws Stored owner_user_id laws = record {
    store_adds = λ input w x own h.
        let p = store cipher storage options input (random w) w in
        let h' : Stored p.1.storage x =
          subst (λ (v : World S). Stored v.storage x) (answered_unit-world p) h in
        elim (store-storage cipher storage options input (random w) w) [
          | inl same ↦ inl (subst (λ s. Stored s x) same h')
          | inr saved ↦
              unfold encrypted_record in
              laws.save_adds (encrypted_record cipher options input (random w)) w.storage
                p.1.storage x saved h'
        ];
    delete_keeps = λ input w x own h.
        elim (delete_credential-storage cipher storage options input w) [
          | inl (same, _) ↦ subst (λ s. Stored s x) same h
          | inr (remove, b, e, removed) ↦
              let after = (delete_credential cipher storage options input w).1.storage in
              laws.delete_keeps remove input.credential_id b w.storage after x e
                (subst (λ o. remove input.credential_id o w.storage ≡ some (b, after)) own removed)
                h
        ];
    delete_removes = λ input w b own e.
        elim (delete_credential-storage cipher storage options input w) [
          | inl (_, never) ↦ absurd (never b e)
          | inr (remove, b', e', removed) ↦
              let after = (delete_credential cipher storage options input w).1.storage in
              laws.delete_removes remove input.credential_id b' w.storage after e'
                (subst (λ o. remove input.credential_id o w.storage ≡ some (b', after)) own removed)
        ];
  }
