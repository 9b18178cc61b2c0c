-- ===== src/SourceAccess/Logins.antt =====
-- packages/source-access/src/index.ts: logging in at a source: `BEGIN_LOGIN` and `COMPLETE_LOGIN`.
-- A transaction is undone where it is rolled back; what the vault did stays. `writes` says whether the
-- statements after the secret is stored, and the commit, go through.
use choice_mind.Prelude.{
  ℕ, String, Bool, true, false, not, ◌&&◌, List, [], ◌∷◌, ◌++◌, Option, none, some, if◌then◌else◌,
  ◌==◌, eqb, any, find,
}
use choice_mind.Security.Actors.{SecurityActor, is_system, source_credential}
use choice_mind.Security.Vault.{StoreCredentialInput, UseInput}
use choice_mind.Security.Vault.Monad.{Outcome, returned, thrown}
use choice_mind.Research.Tables.{update_where}
use choice_mind.SourceAccess.Tables.{
  CredentialStatus, active, LoginStatus, waiting_challenge, completed, CredentialRow, LoginRow,
  SourceStatus, LoginSession, BeginLoginCommand, CompleteLoginCommand, AccessError,
  credential_owner_mismatch, source_login_session_not_found, source_access_write_failed,
  database_rejected, vault_error, Answer, answered, refused, VaultPort, Call,
}

-- `actor !== systemActor` compares objects.
unfoldable pub owns_scope : Option SecurityActor → SecurityActor → String → Bool
owns_scope none actor owner_user_id = not (is_system actor.role) && actor.user_id == owner_user_id
owns_scope (some system_actor) actor owner_user_id =
    if is_system actor.role
    then eqb actor.object_id system_actor.object_id
    else actor.user_id == owner_user_id

unfoldable pub to_source_status : CredentialRow → SourceStatus
to_source_status row = record {
  owner_user_id = row.owner_user_id;
  source_id = row.source_id;
  source_account_id = row.source_account_id;
  status = row.status;
  updated_at = row.updated_at;
}

unfoldable pub to_login_session : LoginRow → LoginSession
to_login_session row = record {
  login_session_id = row.login_session_id;
  official_login_url = row.official_login_url;
  owner_user_id = row.owner_user_id;
  source_id = row.source_id;
  source_account_id = row.source_account_id;
  status = row.status;
  created_at = row.created_at;
  updated_at = row.updated_at;
}

-- `owner_user_id = $1 AND source_id = $2 AND source_account_id = $3`
unfoldable pub is_account : String → String → String → CredentialRow → Bool
is_account owner_user_id source_id source_account_id row =
    row.owner_user_id == owner_user_id
    && row.source_id == source_id
    && row.source_account_id == source_account_id

-- `login_session_id = $1 AND owner_user_id = $2`
unfoldable pub is_session : String → String → LoginRow → Bool
is_session login_session_id owner_user_id row =
    row.login_session_id == login_session_id && row.owner_user_id == owner_user_id

unfoldable pub require_row : Option CredentialRow → Answer SourceStatus
unfolding to_source_status
require_row none = refused source_access_write_failed
require_row (some row) = answered (to_source_status row)

abbrev pub is_login_completed : LoginStatus → Bool
is_login_completed completed = true
is_login_completed waiting_challenge = false

abbrev pub is_active : CredentialStatus → Bool
is_active active = true
is_active _ = false

abbrev pub credential_id_of : Option CredentialRow → Option String
credential_id_of none = none
credential_id_of (some row) = some row.credential_id

-- `INSERT … ON CONFLICT … DO UPDATE … RETURNING *`: the rows, and the row that was written.
unfoldable pub upsert_row : LoginRow → String → String → ℕ → Option CredentialRow → CredentialRow
upsert_row login owner_user_id credential_id t none = record {
  owner_user_id = owner_user_id;
  source_id = login.source_id;
  source_account_id = login.source_account_id;
  credential_id = credential_id;
  status = active;
  created_at = t;
  updated_at = t;
}
upsert_row login owner_user_id credential_id t (some old) = record old {
  credential_id = credential_id;
  status = active;
  updated_at = t;
}

unfoldable pub upsert :
    LoginRow → String → String → ℕ → Option CredentialRow → List CredentialRow → List CredentialRow
unfolding upsert_row is_account
upsert login owner_user_id credential_id t none rows =
    rows ++ upsert_row login owner_user_id credential_id t none ∷ []
upsert login owner_user_id credential_id t (some old) rows =
    update_where (is_account owner_user_id login.source_id login.source_account_id)
      (λ row. record row { credential_id = credential_id; status = active; updated_at = t }) rows

unfoldable pub complete_row : ℕ → Option String → LoginRow → LoginRow
complete_row t replaced row = record row {
  status = completed;
  replaced_credential_id = replaced;
  updated_at = t;
}

module _ {W Operation : Type 0} (port : VaultPort W Operation)
    (system_actor : Option SecurityActor) where
  -- A session's id is drawn at random, and is new.
  unfoldable pub begin_login : BeginLoginCommand → String → ℕ → Call W LoginSession
  unfolding to_login_session
  begin_login command login_session_id t w =
      let row : LoginRow = record {
        login_session_id = login_session_id;
        owner_user_id = command.owner_user_id;
        source_id = command.source_id;
        source_account_id = command.source_account_id;
        official_login_url = command.official_login_url;
        status = waiting_challenge;
        replaced_credential_id = none;
        created_at = t;
        updated_at = t;
      } in
      if any (λ r. r.login_session_id == login_session_id) w.logins
      then (refused database_rejected, w)
      else (answered (to_login_session row), record w { logins = w.logins ++ row ∷ [] })

  abbrev pub delete_input : String → CompleteLoginCommand → UseInput
  delete_input credential_id command = record {
    credential_id = credential_id;
    owner_user_id = command.owner_user_id;
    actor = command.actor;
    correlation_id = command.correlation_id;
  }

  abbrev pub store_input : String → CompleteLoginCommand → StoreCredentialInput
  store_input credential_id command = record {
    credential_id = credential_id;
    owner_user_id = command.owner_user_id;
    secret = command.credential_secret;
    secret_type = source_credential;
    actor = command.actor;
    correlation_id = command.correlation_id;
  }

  -- The replaced credential is deleted, and only then forgotten.
  unfoldable pub forget :
      CompleteLoginCommand → Outcome Bool × W → Answer SourceStatus → Call W SourceStatus
  unfolding is_session
  forget command (thrown e, vault) answer w = (refused (vault_error e), record w { vault = vault })
  forget command (returned deleted, vault) answer w = (
    answer,
    record w {
      vault = vault;
      logins =
          update_where (is_session command.login_session_id command.owner_user_id)
            (λ row. record row { replaced_credential_id = none }) w.logins;
    },
  )

  unfoldable pub delete_replaced :
      CompleteLoginCommand → Option String → Answer SourceStatus → Call W SourceStatus
  unfolding forget
  delete_replaced command none answer w = (answer, w)
  delete_replaced command (some replaced) answer w =
      forget command (port.delete (delete_input replaced command) w.vault) answer w

  -- `catch`: the new credential, if it is not committed, is deleted; an error of that takes the place of
  -- the error that led here.
  unfoldable pub clean_up : Outcome Bool × W → AccessError → Call W SourceStatus
  clean_up (thrown e, vault) error w = (refused (vault_error e), record w { vault = vault })
  clean_up (returned deleted, vault) error w = (refused error, record w { vault = vault })

  -- `oldCredentialId !== undefined && oldCredentialId !== credentialId`
  unfoldable pub other_credential : String → Option CredentialRow → Option String
  other_credential credential_id none = none
  other_credential credential_id (some row) =
      if row.credential_id == credential_id then none else some row.credential_id

  unfoldable pub complete_stored :
      CompleteLoginCommand
      → Bool
      → String
      → ℕ
      → LoginRow
      → Option CredentialRow
      → Outcome (Unit {0}) × W
      → Call W SourceStatus
  unfolding clean_up upsert upsert_row complete_row delete_replaced other_credential
      to_source_status is_session
  complete_stored command writes credential_id t login old (thrown e, vault) w =
      clean_up (port.delete (delete_input credential_id command) vault) (vault_error e) w
  complete_stored command false credential_id t login old (returned _, vault) w =
      clean_up (port.delete (delete_input credential_id command) vault) database_rejected w
  complete_stored command true credential_id t login old (returned _, vault) w =
      delete_replaced command (other_credential credential_id old)
        (answered (to_source_status (upsert_row login command.owner_user_id credential_id t old)))
        (record w {
          vault = vault;
          credentials = upsert login command.owner_user_id credential_id t old w.credentials;
          logins =
              update_where (is_session command.login_session_id command.owner_user_id)
                (complete_row t (credential_id_of old)) w.logins;
        })

  unfoldable pub complete_found :
      CompleteLoginCommand → Bool → String → ℕ → Option LoginRow → Call W SourceStatus
  unfolding complete_stored delete_replaced require_row is_account
  complete_found command writes credential_id t none w = (refused source_login_session_not_found, w)
  complete_found command writes credential_id t (some login) w =
      let account =
        find (is_account command.owner_user_id login.source_id login.source_account_id)
          w.credentials in
      if is_login_completed login.status
      then delete_replaced command login.replaced_credential_id (require_row account) w
      else complete_stored command writes credential_id t login account
          (port.store (store_input credential_id command) w.vault) w

  unfoldable pub complete_login : CompleteLoginCommand → Bool → String → ℕ → Call W SourceStatus
  unfolding owns_scope complete_found is_session
  complete_login command writes credential_id t w =
      if owns_scope system_actor command.actor command.owner_user_id
      then complete_found command writes credential_id t
          (find (is_session command.login_session_id command.owner_user_id) w.logins) w
      else (refused credential_owner_mismatch, w)
