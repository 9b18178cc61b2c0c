-- ===== src/SourceAccess/Credentials.antt =====
-- packages/source-access/src/index.ts: withdrawing credentials, looking them up, using and purging them.
use choice_mind.Prelude.{
  ℕ, String, ◌+◌, Bool, not, ◌&&◌, ◌||◌, List, map, Option, none, some, if◌then◌else◌, ◌==◌, find,
  select, length,
}
use choice_mind.Js.Sorting.{text_lt}
use choice_mind.Security.Actors.{SecurityActor}
use choice_mind.Security.Vault.Monad.{Outcome, returned, thrown}
use choice_mind.Research.Tables.{update_where, order_by}
use choice_mind.SourceAccess.Tables.{
  CredentialStatus, invalid, revoked, CredentialRow, SourceStatus, CredentialCommand,
  credential_owner_mismatch, source_login_required, vault_error, answered, refused, VaultPort,
  World, Call,
}
use choice_mind.SourceAccess.Logins.{owns_scope, to_source_status, is_account, is_active}

module _ {W Operation : Type 0} (port : VaultPort W Operation)
    (system_actor : Option SecurityActor) where
  -- `MARK_INVALID` and `REVOKE_CREDENTIAL`: the row is changed, then its secret is deleted.
  unfoldable pub answer_deleted : CredentialRow → Outcome Bool × W → Call W (Option SourceStatus)
  unfolding to_source_status
  answer_deleted row (thrown e, vault) w = (refused (vault_error e), record w { vault = vault })
  answer_deleted row (returned deleted, vault) w =
      (answered (some (to_source_status row)), record w { vault = vault })

  unfoldable pub withdraw_row :
      CredentialCommand → CredentialStatus → ℕ → Option CredentialRow → Call W (Option SourceStatus)
  unfolding answer_deleted is_account
  withdraw_row command status t none w = (answered none, w)
  withdraw_row command status t (some row) w =
      answer_deleted (record row { status = status; updated_at = t })
        (port.delete
          (record {
            credential_id = row.credential_id;
            owner_user_id = command.owner_user_id;
            actor = command.actor;
            correlation_id = command.correlation_id;
          })
          w.vault)
        (record w {
          credentials =
              update_where
                (is_account command.owner_user_id command.source_id command.source_account_id)
                (λ r. record r { status = status; updated_at = t }) w.credentials;
        })

  unfoldable pub withdraw : CredentialCommand → CredentialStatus → ℕ → Call W (Option SourceStatus)
  unfolding owns_scope withdraw_row is_account
  withdraw command status t w =
      if owns_scope system_actor command.actor command.owner_user_id
      then withdraw_row command status t
          (find (is_account command.owner_user_id command.source_id command.source_account_id)
            w.credentials)
          w
      else (refused credential_owner_mismatch, w)

  unfoldable pub mark_invalid : CredentialCommand → ℕ → Call W (Option SourceStatus)
  unfolding withdraw
  mark_invalid command t = withdraw command invalid t

  unfoldable pub revoke_credential : CredentialCommand → ℕ → Call W (Option SourceStatus)
  unfolding withdraw
  revoke_credential command t = withdraw command revoked t

  unfoldable pub get_source_status : String → String → String → World W → Option SourceStatus
  unfolding is_account to_source_status
  get_source_status owner_user_id source_id source_account_id w =
      elim (find (is_account owner_user_id source_id source_account_id) w.credentials) [
        | none ↦ none
        | some row ↦ some (to_source_status row)
      ]

  -- `ORDER BY source_id, source_account_id`
  unfoldable pub account_before : CredentialRow → CredentialRow → Bool
  account_before a b =
      text_lt a.source_id b.source_id
      || (a.source_id == b.source_id && text_lt a.source_account_id b.source_account_id)

  unfoldable pub list_source_statuses : String → World W → List SourceStatus
  unfolding account_before order_by to_source_status
  list_source_statuses owner_user_id w =
      map to_source_status
        (order_by account_before (select (λ r. r.owner_user_id == owner_user_id) w.credentials))

  unfoldable pub answer_used : Outcome (Unit {0}) × W → Call W (Unit {0})
  answer_used (thrown e, vault) w = (refused (vault_error e), record w { vault = vault })
  answer_used (returned _, vault) w = (answered tt, record w { vault = vault })

  unfoldable pub use_row : CredentialCommand → Operation → Option CredentialRow → Call W (Unit {0})
  unfolding answer_used
  use_row input operation none w = (refused source_login_required, w)
  use_row input operation (some row) w =
      if is_active row.status
      then answer_used
          (port.use_secret
            (record {
              credential_id = row.credential_id;
              owner_user_id = input.owner_user_id;
              actor = input.actor;
              correlation_id = input.correlation_id;
            })
            operation w.vault)
          w
      else (refused source_login_required, w)

  unfoldable pub with_credential : CredentialCommand → Operation → Call W (Unit {0})
  unfolding owns_scope use_row is_account
  with_credential input operation w =
      if owns_scope system_actor input.actor input.owner_user_id
      then use_row input operation
          (find (is_account input.owner_user_id input.source_id input.source_account_id)
            w.credentials)
          w
      else (refused credential_owner_mismatch, w)

  -- The number of the rows deleted; the vault is not touched.
  unfoldable pub purge_owner : String → World W → ℕ × World W
  purge_owner owner_user_id w = (
    length (select (λ r. r.owner_user_id == owner_user_id) w.logins)
        + length (select (λ r. r.owner_user_id == owner_user_id) w.credentials),
    record w {
      logins = select (λ r. not (r.owner_user_id == owner_user_id)) w.logins;
      credentials = select (λ r. not (r.owner_user_id == owner_user_id)) w.credentials;
    },
  )
