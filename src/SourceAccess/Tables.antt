-- ===== src/SourceAccess/Tables.antt =====
-- packages/source-access/src/index.ts: the rows, the commands, and the vault that is handed in.
-- A time is its milliseconds. The vault is a port: what it keeps is a state of its own.
use choice_mind.Prelude.{ℕ, String, Bool, List, Option}
use choice_mind.Security.Actors.{SecurityActor}
use choice_mind.Security.Vault.{StoreCredentialInput, UseInput}
use choice_mind.Security.Vault.Monad.{Outcome, VaultError}

pub data CredentialStatus : Type 0 where
  active invalid revoked : CredentialStatus

pub data LoginStatus : Type 0 where
  waiting_challenge completed : LoginStatus

pub record CredentialRow : Type 0 where
  pub owner_user_id : String
  pub source_id : String
  pub source_account_id : String
  pub credential_id : String
  pub status : CredentialStatus
  pub created_at : ℕ
  pub updated_at : ℕ

pub record LoginRow : Type 0 where
  pub login_session_id : String
  pub owner_user_id : String
  pub source_id : String
  pub source_account_id : String
  pub official_login_url : String
  pub status : LoginStatus
  pub replaced_credential_id : Option String
  pub created_at : ℕ
  pub updated_at : ℕ

pub record SourceStatus : Type 0 where
  pub owner_user_id : String
  pub source_id : String
  pub source_account_id : String
  pub status : CredentialStatus
  pub updated_at : ℕ

pub record LoginSession : Type 0 where
  pub login_session_id : String
  pub official_login_url : String
  pub owner_user_id : String
  pub source_id : String
  pub source_account_id : String
  pub status : LoginStatus
  pub created_at : ℕ
  pub updated_at : ℕ

pub record BeginLoginCommand : Type 0 where
  pub owner_user_id : String
  pub source_id : String
  pub source_account_id : String
  pub official_login_url : String

pub record CompleteLoginCommand : Type 0 where
  pub owner_user_id : String
  pub login_session_id : String
  pub credential_secret : String
  pub correlation_id : String
  pub actor : SecurityActor

pub record CredentialCommand : Type 0 where
  pub owner_user_id : String
  pub source_id : String
  pub source_account_id : String
  pub correlation_id : String
  pub actor : SecurityActor

pub data AccessError : Type 0 where
  credential_owner_mismatch source_login_session_not_found source_login_required : AccessError
  source_access_write_failed database_rejected : AccessError
  vault_error : VaultError → AccessError

pub data Answer (A : Type 0) : Type 0 where
  answered : A → Answer A
  refused : AccessError → Answer A

-- `CredentialVault`; the operation on a secret is a value of the caller's.
pub record VaultPort (W : Type 0) (Operation : Type 0) : Type 0 where
  pub store : StoreCredentialInput → W → Outcome (Unit {0}) × W
  pub use_secret : UseInput → Operation → W → Outcome (Unit {0}) × W
  pub delete : UseInput → W → Outcome Bool × W

pub record World (W : Type 0) : Type 0 where
  pub logins : List LoginRow
  pub credentials : List CredentialRow
  pub vault : W

-- A call answers or is refused, and leaves a world.
abbrev pub Call : Type 0 → Type 0 → Type 0
Call W A = World W → Answer A × World W
