-- ===== src/Security/Vault/Laws.antt =====
-- Who reaches a secret, and what is left of it afterwards.
use choice_mind.Prelude.{
  ℕ, ◌≡◌, refl, ◌⊎◌, inl, inr, Bool, true, List, [], ◌∷◌, ◌++◌, Option, none, some, arith,
  Option-cases, Bool-cases,
}
use choice_mind.Security.Actors.{use_secret}
use choice_mind.Security.Vault.Monad.{
  EncryptedCredentialRecord, credential_use, started, VaultError, secret_lease_expired, SecretValue,
  World, Outcome, returned, thrown, Storage, Cipher, VaultOptions, audit_record,
  append_credential_audit,
}
use choice_mind.Security.Vault.{
  reveal, may_access, UseInput, decrypt_record, record_matches, use_credential, subject_of,
}

loaded_cases :
    (o : Outcome (Option EncryptedCredentialRecord))
    → (((e : VaultError) × (o ≡ thrown e)) ⊎ (o ≡ returned none))
      ⊎ ((r : EncryptedCredentialRecord) × (o ≡ returned (some r)))
loaded_cases (thrown e) = inl (inl (e, refl))
loaded_cases (returned none) = inl (inr refl)
loaded_cases (returned (some r)) = inr (r, refl)

module _ {S : Type 0} (cipher : Cipher) (storage : Storage S) (options : VaultOptions) where
  abbrev used : UseInput → (SecretValue → Bool) → World S → World S
  used input operation w = (use_credential cipher storage options input operation w).1

  -- A callback is run at most once in a call, and only where the caller may use the credential, the
  -- STARTED record was accepted first, and the stored record is the one asked for; the callback then gets
  -- that record's plaintext.
  pub use_credential-revealed :
      (input : UseInput) (operation : SecretValue → Bool) (w : World S)
      → ((used input operation w).revealed ≡ w.revealed)
        ⊎ ((r : EncryptedCredentialRecord) × (plaintext : List ℕ) × ((used input operation
                w).revealed
              ≡ w.revealed ++ plaintext ∷ [])
            × (may_access options input.actor input.owner_user_id use_secret ≡ true)
            × (options.audit_accepts w.audit
                  (audit_record options (subject_of input) credential_use started w.ticks)
                ≡ true)
            × (storage.load input.credential_id input.owner_user_id w.storage ≡ returned (some r))
            × (record_matches options input r ≡ true)
            × (decrypt_record cipher options r ≡ some plaintext))
  unfolding use_credential append_credential_audit
  use_credential-revealed input operation w =
      elim (Bool-cases (may_access options input.actor input.owner_user_id use_secret)) [
        | inr refused ↦ inl (ground arith)
        | inl right ↦
            elim (Bool-cases (
              options.audit_accepts w.audit
                (audit_record options (subject_of input) credential_use started w.ticks))) [
                  | inr silent ↦ inl (ground arith)
                  | inl heard ↦
                      elim (loaded_cases
                        (storage.load input.credential_id input.owner_user_id w.storage)) [
                          | inl missing ↦ inl (ground arith)
                          | inr (r, found) ↦ elim (Bool-cases (record_matches options input r)) [
                            | inr other ↦ inl (ground arith)
                            | inl same ↦ elim (Option-cases (decrypt_record cipher options r)) [
                              | inl corrupt ↦ inl (ground arith)
                              | inr (plaintext, opened) ↦
                                  inr
                                    (r, plaintext, ground arith, right, heard, found, same, opened)
                            ]
                          ]
                        ]
                ]
      ]

  -- The lease that the world holds after a use is the one that it held before, or reveals nothing any
  -- more.
  pub use_credential-lease :
      (input : UseInput) (operation : SecretValue → Bool) (w : World S) (s : SecretValue)
      → (used input operation w).lease ≡ some s
      → (w.lease ≡ some s) ⊎ (reveal cipher.from_utf8 s ≡ thrown secret_lease_expired)
  unfolding use_credential append_credential_audit reveal
  use_credential-lease input operation w s h = ground arith

  -- Neither a use nor a refused call changes the storage.
  pub use_credential-storage :
      (input : UseInput) (operation : SecretValue → Bool) (w : World S)
      → (used input operation w).storage ≡ w.storage
  unfolding use_credential append_credential_audit
  use_credential-storage input operation w = ground arith
