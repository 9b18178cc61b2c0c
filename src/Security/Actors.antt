-- ===== src/Security/Actors.antt =====
-- packages/security/src/index.ts: `SecurityActor` and `SystemCredentialAccess`.
use choice_mind.Prelude.{ℕ, String, Bool, true, false, List}

pub data Role : Type 0 where
  user admin superadmin system : Role

-- `===` on actors compares objects, so an actor carries the identity of its object.
pub record SecurityActor : Type 0 where
  pub object_id : ℕ
  pub user_id : String
  pub role : Role

abbrev pub is_system : Role → Bool
is_system system = true
is_system _ = false

pub data SecretType : Type 0 where
  provider_credential source_credential : SecretType

abbrev pub same_secret_type : SecretType → SecretType → Bool
same_secret_type provider_credential provider_credential = true
same_secret_type source_credential source_credential = true
same_secret_type _ _ = false

pub data SystemAction : Type 0 where
  use_secret delete_secret : SystemAction

abbrev pub same_action : SystemAction → SystemAction → Bool
same_action use_secret use_secret = true
same_action delete_secret delete_secret = true
same_action _ _ = false

-- The type of the source fixes the secret type: `SOURCE_CREDENTIAL`.
pub record SystemCredentialAccess : Type 0 where
  pub actor : SecurityActor
  pub secret_type : SecretType
  pub actions : List SystemAction
