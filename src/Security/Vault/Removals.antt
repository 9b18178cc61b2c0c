-- ===== src/Security/Vault/Removals.antt =====
-- packages/security/src/index.ts: the audit trail that `delete` leaves.
use choice_mind.Prelude.{
  ◌≡◌, ◌⊎◌, refl, inl, inr, Bool, true, false, Option, none, some, List, [], ◌∷◌, Option-cases,
  Bool-cases,
}
use choice_mind.Security.Actors.{delete_secret, is_system}
use choice_mind.Security.Vault.Monad.{
  EncryptedCredentialRecord, VaultError, credential_delete, AuditResult, started, allowed, denied,
  failed, credential_not_found, credential_delete_failed, audit_rejected, World, Outcome, returned,
  thrown, M, ◌>>=◌, ◌>>◌, throw, give, catch, Storage, Cipher, VaultOptions,
  append_credential_audit, loaded_cases,
}
use choice_mind.Security.Vault.Audit.{
  Leaves, Ended, Leaves-nil, audited_then, last_record, failing_handler, failing_handler_twice,
}
use choice_mind.Security.Vault.Rights.{
  IsEntitled, IsReadable, RefusedTrail, refused, not-true, may_access_iff, system_reads_iff,
}
use choice_mind.Security.Vault.{
  may_access, system_reads, UseInput, subject_of, run_delete, check_system, check_system_record,
  load_record, system_reads, delete_started, delete_credential,
}

-- The trails of a `delete` that runs, by outcome. Its ALLOWED record is inside the `try`: a rejected one is
-- followed by FAILED, though the credential is gone.
pub data DeleteTrail : Outcome Bool → List AuditResult → Type 0 where
  not_deleted : DeleteTrail (thrown credential_delete_failed) (started ∷ failed ∷ [])
  succeeded : (b : Bool) → DeleteTrail (returned b) (started ∷ allowed ∷ [])
  silent : DeleteTrail (thrown audit_rejected) []
  cut_short : DeleteTrail (thrown audit_rejected) (started ∷ [])

-- A system delete whose record cannot be loaded leaves FAILED alone.
pub data UncheckedTrail : Outcome Bool → List AuditResult → Type 0 where
  not_checked : UncheckedTrail (thrown credential_delete_failed) (failed ∷ [])
  silent : UncheckedTrail (thrown audit_rejected) []

module _ {S : Type 0} (cipher : Cipher) (storage : Storage S) (options : VaultOptions) where
  not_deleted_trail :
      (input : UseInput) (w₀ w : World S)
      → Leaves w₀ (started ∷ []) w
      → Ended {A = Bool} DeleteTrail w₀ (
          (append_credential_audit options (subject_of input) credential_delete failed
              >> throw credential_delete_failed)
            w)
  not_deleted_trail input w₀ w l =
      last_record options (subject_of input) credential_delete DeleteTrail failed
        (throw credential_delete_failed) _ w₀ w _ (λ _. refl) DeleteTrail.cut_short not_deleted l

  removed_trail :
      (input : UseInput) (w₀ w : World S) (b : Bool)
      → Leaves w₀ (started ∷ []) w
      → Ended DeleteTrail w₀ (
          catch
            (append_credential_audit options (subject_of input) credential_delete allowed >> give b)
            (λ _.
              append_credential_audit options (subject_of input) credential_delete failed
              >> throw credential_delete_failed)
            w)
  removed_trail input w₀ w b l =
      elim (audited_then options (subject_of input) credential_delete allowed (give b) w₀ w _ l) [
        | inl (w', e, l', _) ↦ rw e (_, DeleteTrail.succeeded b, l')
        | inr (w', e, l') ↦ rw e (not_deleted_trail input w₀ w' l')
      ]

  delete_started_trail :
      (input : UseInput) (w₀ w : World S)
      → Leaves w₀ (started ∷ []) w
      → Ended DeleteTrail w₀ (delete_started cipher storage options input w)
  unfolding delete_started
  delete_started_trail input w₀ w (es, added, results) = elim (Option-cases storage.delete) [
    | inl missing ↦
        rw (missing, delete_started, run_delete) (not_deleted_trail input w₀ w (es, added, results))
    | inr (remove, e) ↦
        elim (Option-cases (remove input.credential_id input.owner_user_id w.storage)) [
          | inl rejected ↦
              rw (e, delete_started, run_delete)
                (rw rejected (not_deleted_trail input w₀ w (es, added, results)))
          | inr ((b, s), removed) ↦
              rw (e, delete_started, run_delete)
                (rw removed
                  (removed_trail input w₀ (record w { storage = s }) b (es, added, results)))
        ]
  ]

  not_found_trail :
      {A : Type 0} (input : UseInput) (w : World S) (f : A → M S Bool)
      → Ended (RefusedTrail credential_not_found) w (
          ((append_credential_audit options (subject_of input) credential_delete denied
                >> throw credential_not_found)
              >>= f)
            w)
  not_found_trail input w f =
      failing_handler options (subject_of input) credential_delete
        (RefusedTrail credential_not_found) denied credential_not_found f w w [] RefusedTrail.silent
        refused (Leaves-nil w)

  abbrev pub loaded : UseInput → World S → Outcome (Option EncryptedCredentialRecord)
  loaded input w = storage.load input.credential_id input.owner_user_id w.storage

  -- A person's delete needs no look at the record; the system's finds one that it may read.
  abbrev pub IsCleared : UseInput → World S → Type 0
  IsCleared input w =
      (is_system input.actor.role ≡ false)
      ⊎ ((r : EncryptedCredentialRecord) × (loaded input w ≡ returned (some r))
          × IsReadable options r)

  -- The system finds no record, or one that it may not read.
  abbrev pub IsWithheld : UseInput → World S → Type 0
  IsWithheld input w =
      (is_system input.actor.role ≡ true)
      × ((loaded input w ≡ returned none)
          ⊎ ((r : EncryptedCredentialRecord) × (loaded input w ≡ returned (some r))
              × (¬ IsReadable options r)))

  -- The system's look at the record fails.
  abbrev pub IsUnchecked : UseInput → World S → Type 0
  IsUnchecked input w =
      (is_system input.actor.role ≡ true) × ((e : VaultError) × (loaded input w ≡ thrown e))

  cleared_trail :
      (input : UseInput) (w : World S) (k : M S Bool)
      → IsCleared input w
      → Ended DeleteTrail w (k w)
      → Ended DeleteTrail w ((check_system cipher storage options input >> k) w)
  unfolding check_system
  cleared_trail input w k (inl person) next = rw person next
  cleared_trail input w k (inr (r, found, readable)) next =
      elim (Bool-cases (is_system input.actor.role)) [
        | inr person ↦ rw person next
        | inl robot ↦ rw robot (
            rw (found, load_record)
              (rw ((system_reads_iff options r).1 readable, check_system_record) next))
      ]

  withheld_trail :
      (input : UseInput) (w : World S) (k : M S Bool)
      → IsWithheld input w
      → Ended
          (RefusedTrail credential_not_found)
          w
          ((check_system cipher storage options input >> k) w)
  unfolding check_system
  withheld_trail input w k (robot, inl missing) =
      rw robot (rw (missing, load_record) (not_found_trail input w _))
  withheld_trail input w k (robot, inr (r, found, foreign)) = rw robot (
      rw (found, load_record)
        (rw (not-true _ (λ h. foreign ((system_reads_iff options r).0 h)), check_system_record)
          (not_found_trail input w _)))

  unchecked_trail :
      (input : UseInput) (w : World S) (k : M S Bool)
      → IsUnchecked input w
      → Ended UncheckedTrail w ((check_system cipher storage options input >> k) w)
  unfolding check_system
  unchecked_trail input w k (robot, (e, broken)) = rw robot (
      rw (broken, load_record)
        (failing_handler_twice options (subject_of input) credential_delete UncheckedTrail failed
          credential_delete_failed (check_system_record cipher storage options input) (λ _. k) w w
          [] UncheckedTrail.silent not_checked (Leaves-nil w)))

  delete_cases :
      (input : UseInput) (w : World S)
      → IsCleared input w ⊎ (IsWithheld input w ⊎ IsUnchecked input w)
  delete_cases input w = elim (Bool-cases (is_system input.actor.role)) [
    | inr person ↦ inl (inl person)
    | inl robot ↦ elim (loaded_cases (loaded input w)) [
      | inl (e, broken) ↦ inr (inr (robot, (e, broken)))
      | inr (inl missing) ↦ inr (inl (robot, inl missing))
      | inr (inr (r, found)) ↦
          let readable = system_reads_iff options r in
          elim (Bool-cases (system_reads options.system_access r.secret_type)) [
            | inl yes_ ↦ inl (inr (r, found, readable.0 yes_))
            | inr no_ ↦ inr (inl (robot, inr (r, found, λ h. absurd (cc (no_, readable.1 h)))))
          ]
    ]
  ]

  -- A delete by the owner, or by the system as far as its access goes and of a stored record of its type,
  -- leaves STARTED and then ALLOWED or FAILED, as its outcome says. A delete by anybody else leaves DENIED
  -- alone, and so does one by the system of a record that is missing or of another type. A delete by the
  -- system whose record cannot be loaded leaves FAILED alone. Only a record that the audit port rejects is
  -- missing.
  pub delete_credential-DeleteTrail :
      (input : UseInput) (w : World S)
      → let result = delete_credential cipher storage options input w in
        let entitled = IsEntitled options input.actor input.owner_user_id delete_secret in
        (entitled × IsCleared input w × Ended DeleteTrail w result)
        ⊎ (((¬ entitled) × Ended (RefusedTrail credential_not_found) w result)
            ⊎ ((entitled × IsWithheld input w × Ended (RefusedTrail credential_not_found) w result)
                ⊎ (entitled × IsUnchecked input w × Ended UncheckedTrail w result)))
  unfolding delete_credential
  delete_credential-DeleteTrail input w =
      let right = may_access_iff options input.actor input.owner_user_id delete_secret in
      elim (Bool-cases (may_access options input.actor input.owner_user_id delete_secret)) [
        | inr no_ ↦ inr (
            inl (
              λ h. absurd (cc (no_, right.1 h)),
              rw no_ (
                  last_record options (subject_of input) credential_delete
                    (RefusedTrail credential_not_found) denied (throw credential_not_found) _ w w _
                    (λ _. refl) RefusedTrail.silent refused (Leaves-nil w)),
            ))
        | inl yes_ ↦ elim (delete_cases input w) [
          | inl cleared ↦ inl (
            right.0 yes_,
            cleared,
            rw yes_ (
                cleared_trail input w _ cleared
                  (elim (audited_then options (subject_of input) credential_delete started
                    (delete_started cipher storage options input) w w [] (Leaves-nil w)) [
                      | inl (w', e, l, _) ↦ rw e (delete_started_trail input w w' l)
                      | inr (w', e, l) ↦ rw e ([], DeleteTrail.silent, l)
                    ])),
          )
          | inr (inl withheld) ↦
              inr (inr (inl (right.0 yes_, withheld, rw yes_ (withheld_trail input w _ withheld))))
          | inr (inr unchecked) ↦
              inr
                (inr (inr (right.0 yes_, unchecked, rw yes_ (unchecked_trail input w _ unchecked))))
        ]
      ]
