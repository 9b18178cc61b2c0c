-- ===== src/SourceAccess/Secrets/Completions.antt =====
-- packages/source-access/src/index.ts: no secret in the vault is lost sight of by completing a login.
use choice_mind.Prelude.{
  ℕ, String, ◌≡◌, ◌≢◌, ◌⊎◌, refl, ap, ◌∙◌, inl, inr, Bool, true, false, List, Option, none, some,
  arith, All, Bool-cases, Option-cases, find,
}
use choice_mind.Security.Actors.{SecurityActor}
use choice_mind.Security.Vault.Monad.{Outcome, VaultError, returned, thrown}
use choice_mind.Research.Tables.{update_where}
use choice_mind.Research.Tables.Rows.{In, All-at, All-every, All-update_where}
use choice_mind.SourceAccess.Tables.{
  CredentialRow, LoginRow, CompleteLoginCommand, VaultPort, World,
}
use choice_mind.SourceAccess.Logins.{
  owns_scope, is_account, is_login_completed, complete_row, delete_input, store_input,
  other_credential, complete_stored, complete_found, complete_login, credential_id_of,
}
use choice_mind.SourceAccess.Secrets.{
  HoldsLaws, NoOrphan, IsKeyed, WaitsClean, find-some, session_of,
}
use choice_mind.SourceAccess.Secrets.Deletions.{delete_replaced-NoOrphan, clean_up-NoOrphan}
use choice_mind.SourceAccess.Secrets.Waiting.{complete_login-WaitsClean}
use choice_mind.SourceAccess.Secrets.Commits.{committed_rows, committed-NoOrphan}

module _ {W Operation : Type 0} (port : VaultPort W Operation) (system_actor : Option SecurityActor)
    (Holds : W → String → Type 0) (command : CompleteLoginCommand)
    (laws : HoldsLaws port Holds command.owner_user_id) where
  -- After the commit the session's rows speak of the replaced credential and of no other.
  only_replaced :
      (credential_id : String) (t : ℕ) (old : Option CredentialRow) (logins : List LoginRow)
      (x : String)
      → other_credential port system_actor credential_id old ≡ some x
      → All
          (λ l. (session_of command) l ≡ true → l.replaced_credential_id ≡ some x)
          (update_where (session_of command) (complete_row t (credential_id_of old)) logins)
  unfolding other_credential
  only_replaced credential_id t none logins x e = absurd (cc e)
  only_replaced credential_id t (some old) logins x e =
      All-update_where (λ _. Unit {0}) _ (session_of command)
        (complete_row t (some old.credential_id)) logins
        (All-every _ logins (λ l _ q _. unfold complete_row in ground arith))
        (All-every _ logins (λ l _ q q'. absurd (cc q))) (All-every _ logins (λ l. tt))

  module _ (credential_id : String)
      (returns : (v : W) (e : VaultError)
        → (port.delete (delete_input port system_actor credential_id command) v).0 ≢ thrown e)
      (t : ℕ) (w : World W) (k : IsKeyed command w) (clean : WaitsClean w) where
    stored-NoOrphan :
        (writes : Bool) (login : LoginRow) (p : Outcome (Unit {0}) × W)
        → In login w.logins
        → session_of command login ≡ true
        → is_login_completed login.status ≡ false
        → ((x : String) → Holds p.1 x → Holds w.vault x ⊎ (x ≡ credential_id))
        → NoOrphan Holds w
        → NoOrphan Holds
            (complete_stored port system_actor command writes credential_id t login
              (find
                (is_account command.owner_user_id login.source_id login.source_account_id)
                w.credentials)
              p
              w).1
    unfolding complete_stored
    stored-NoOrphan writes login (thrown e, v) here this waits adds known =
        clean_up-NoOrphan port system_actor Holds command laws
          (port.delete (delete_input port system_actor credential_id command) v) credential_id _ w
          (λ x h.
            adds x
              (laws.delete_keeps (delete_input port system_actor credential_id command) v x refl h))
          (λ b e.
            laws.delete_removes (delete_input port system_actor credential_id command) v b refl e)
          (returns v) known
    stored-NoOrphan false login (returned _, v) here this waits adds known =
        clean_up-NoOrphan port system_actor Holds command laws
          (port.delete (delete_input port system_actor credential_id command) v) credential_id _ w
          (λ x h.
            adds x
              (laws.delete_keeps (delete_input port system_actor credential_id command) v x refl h))
          (λ b e.
            laws.delete_removes (delete_input port system_actor credential_id command) v b refl e)
          (returns v) known
    stored-NoOrphan true login (returned _, v) here this waits adds known =
        let old =
          find (is_account command.owner_user_id login.source_id login.source_account_id)
            w.credentials in
        delete_replaced-NoOrphan port system_actor Holds command laws
          (other_credential port system_actor credential_id old) _
          (committed_rows Holds command credential_id t login old v w)
          (λ x l e i hit. All-at _ _ l (only_replaced credential_id t old w.logins x e) i hit)
          (committed-NoOrphan Holds command credential_id t login w k clean here this waits old v
            refl adds known)

    found-NoOrphan :
        (writes : Bool) (login : LoginRow)
        → In login w.logins
        → session_of command login ≡ true
        → NoOrphan Holds w
        → NoOrphan Holds
            (complete_found port system_actor command writes credential_id t (some login) w).1
    unfolding complete_found
    found-NoOrphan writes login here this known =
        elim (Bool-cases (is_login_completed login.status)) [
          | inl done ↦ rw done (
              delete_replaced-NoOrphan port system_actor Holds command laws
                login.replaced_credential_id _ w
                (λ x l e i hit.
                  ap (λ (m : LoginRow). m.replaced_credential_id)
                    (k.one_session l login i here hit this)
                  ∙ e)
                known)
          | inr waits ↦ rw waits (
              stored-NoOrphan writes login
                (port.store (store_input port system_actor credential_id command) w.vault) here this
                waits
                (λ x h.
                  laws.store_adds (store_input port system_actor credential_id command) w.vault x
                    refl h)
                known)
        ]

    vault_rows-NoOrphan :
        (writes : Bool)
        → NoOrphan Holds w
        → NoOrphan Holds (complete_login port system_actor command writes credential_id t w).1
    unfolding complete_login
    vault_rows-NoOrphan writes known =
        elim (Bool-cases (owns_scope system_actor command.actor command.owner_user_id)) [
          | inr refused_ ↦ rw refused_ known
          | inl owned ↦ rw owned (elim (Option-cases (find (session_of command) w.logins)) [
            | inl e ↦ rw e (unfold complete_found in known)
            | inr (login, e) ↦
                let (here, this) = find-some (session_of command) w.logins login e in
                rw e (found-NoOrphan writes login here this known)
          ])
        ]

    -- With a vault that obeys the laws and in which deleting the new credential does not fail, and tables
    -- that keep their primary keys, these two hold together after completing a login if they held before,
    -- however it ends, be it refused, undone because the secret or the rows could not be written, repeated,
    -- done, or failing as it deletes the replaced credential: every secret of the owner's in the vault is
    -- named by an account's row or by a session that has still to delete it, and a session that still waits
    -- has no credential to delete.
    pub complete_login-NoOrphan :
        (writes : Bool)
        → NoOrphan Holds w
        → let after = (complete_login port system_actor command writes credential_id t w).1 in
          NoOrphan Holds after × WaitsClean after
    complete_login-NoOrphan writes known = (
      vault_rows-NoOrphan writes known,
      complete_login-WaitsClean port system_actor command writes credential_id t w clean,
    )
