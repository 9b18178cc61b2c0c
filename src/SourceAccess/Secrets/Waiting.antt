-- ===== src/SourceAccess/Secrets/Waiting.antt =====
-- packages/source-access/src/index.ts: completing a login leaves the waiting ones with nothing replaced.
use choice_mind.Prelude.{
  ℕ, String, ◌≡◌, refl, inl, inr, Bool, true, false, List, Option, none, some, All, Bool-cases,
  find,
}
use choice_mind.Security.Actors.{SecurityActor}
use choice_mind.Security.Vault.Monad.{Outcome, returned, thrown}
use choice_mind.Research.Tables.{update_where}
use choice_mind.Research.Tables.Rows.{All-every, All-update_where}
use choice_mind.SourceAccess.Tables.{
  CredentialRow, LoginRow, CompleteLoginCommand, SourceStatus, AccessError, Answer, VaultPort,
  World,
}
use choice_mind.SourceAccess.Logins.{
  owns_scope, is_login_completed, complete_row, delete_input, store_input, forget, delete_replaced,
  clean_up, other_credential, complete_stored, complete_found, complete_login, credential_id_of,
}
use choice_mind.SourceAccess.Secrets.{WaitsClean, session_of}

-- An update that leaves no waiting login with a replaced credential.
update_where-clean :
    (p : LoginRow → Bool) (f : LoginRow → LoginRow) (logins : List LoginRow)
    → ((l : LoginRow)
        → is_login_completed (f l).status ≡ false
        → (f l).replaced_credential_id ≡ none)
    → All (λ l. is_login_completed l.status ≡ false → l.replaced_credential_id ≡ none) logins
    → All
        (λ l. is_login_completed l.status ≡ false → l.replaced_credential_id ≡ none)
        (update_where p f logins)
update_where-clean p f logins ok h =
    All-update_where (λ l. is_login_completed l.status ≡ false → l.replaced_credential_id ≡ none) _
      p f logins (All-every _ logins (λ l _ _. ok l)) (All-every _ logins (λ l c _. c)) h

complete_row-clean :
    (t : ℕ) (replaced : Option String) (l : LoginRow)
    → is_login_completed (complete_row t replaced l).status ≡ false
    → (complete_row t replaced l).replaced_credential_id ≡ none
unfolding complete_row
complete_row-clean t replaced l e = absurd (cc e)

module _ {W Operation : Type 0} (port : VaultPort W Operation) (system_actor : Option SecurityActor)
    (command : CompleteLoginCommand) where
  forget-WaitsClean :
      (p : Outcome Bool × W) (answer : Answer SourceStatus) (w : World W)
      → WaitsClean w
      → WaitsClean (forget port system_actor command p answer w).1
  unfolding forget
  forget-WaitsClean (thrown e, v) answer w clean = clean
  forget-WaitsClean (returned b, v) answer w clean =
      update_where-clean (session_of command) _ w.logins (λ l e. refl) clean

  delete_replaced-WaitsClean :
      (replaced : Option String) (answer : Answer SourceStatus) (w : World W)
      → WaitsClean w
      → WaitsClean (delete_replaced port system_actor command replaced answer w).1
  unfolding delete_replaced
  delete_replaced-WaitsClean none answer w clean = clean
  delete_replaced-WaitsClean (some y) answer w clean =
      forget-WaitsClean (port.delete (delete_input port system_actor y command) w.vault) answer w
        clean

  clean_up-WaitsClean :
      (p : Outcome Bool × W) (error : AccessError) (w : World W)
      → WaitsClean w
      → WaitsClean (clean_up port system_actor p error w).1
  unfolding clean_up
  clean_up-WaitsClean (thrown e, v) error w clean = clean
  clean_up-WaitsClean (returned b, v) error w clean = clean

  complete_stored-WaitsClean :
      (writes : Bool) (credential_id : String) (t : ℕ) (login : LoginRow)
      (old : Option CredentialRow) (p : Outcome (Unit {0}) × W) (w : World W)
      → WaitsClean w
      → WaitsClean
          (complete_stored port system_actor command writes credential_id t login old p w).1
  unfolding complete_stored
  complete_stored-WaitsClean writes credential_id t login old (thrown e, v) w clean =
      clean_up-WaitsClean (port.delete (delete_input port system_actor credential_id command) v) _ w
        clean
  complete_stored-WaitsClean false credential_id t login old (returned _, v) w clean =
      clean_up-WaitsClean (port.delete (delete_input port system_actor credential_id command) v) _ w
        clean
  complete_stored-WaitsClean true credential_id t login old (returned _, v) w clean =
      delete_replaced-WaitsClean (other_credential port system_actor credential_id old) _ _ (
        update_where-clean (session_of command) (complete_row t (credential_id_of old)) w.logins
          (complete_row-clean t (credential_id_of old)) clean)

  complete_found-WaitsClean :
      (writes : Bool) (credential_id : String) (t : ℕ) (found : Option LoginRow) (w : World W)
      → WaitsClean w
      → WaitsClean (complete_found port system_actor command writes credential_id t found w).1
  unfolding complete_found
  complete_found-WaitsClean writes credential_id t none w clean = clean
  complete_found-WaitsClean writes credential_id t (some login) w clean =
      elim (Bool-cases (is_login_completed login.status)) [
        | inl done ↦ rw done (delete_replaced-WaitsClean login.replaced_credential_id _ w clean)
        | inr waits ↦ rw waits (
            complete_stored-WaitsClean writes credential_id t login _
              (port.store (store_input port system_actor credential_id command) w.vault) w clean)
      ]

  pub complete_login-WaitsClean :
      (writes : Bool) (credential_id : String) (t : ℕ) (w : World W)
      → WaitsClean w
      → WaitsClean (complete_login port system_actor command writes credential_id t w).1
  unfolding complete_login
  complete_login-WaitsClean writes credential_id t w clean =
      elim (Bool-cases (owns_scope system_actor command.actor command.owner_user_id)) [
        | inr refused_ ↦ rw refused_ clean
        | inl owned ↦ rw owned (
            complete_found-WaitsClean writes credential_id t (find (session_of command) w.logins) w
              clean)
      ]
