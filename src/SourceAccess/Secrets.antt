-- ===== src/SourceAccess/Secrets.antt =====
-- packages/source-access/src/index.ts: which rows name the secrets that the vault holds.
pub mod Deletions
pub mod Commits
pub mod Waiting
pub mod Completions
use mathlib.Core.Option.{some-injective}
use choice_mind.Prelude.{
  ℕ, String, ◌≡◌, ◌≢◌, ◌⊎◌, refl, sym, subst, ap, ◌∙◌, inl, inr, Bool, true, false, List, [], ◌∷◌,
  Option, none, some, arith, All, Any, Any-append, Bool-cases, Option-cases, find,
}
use choice_mind.Security.Actors.{SecurityActor}
use choice_mind.Security.Vault.{StoreCredentialInput, UseInput}
use choice_mind.Security.Vault.Monad.{Outcome, VaultError, returned, thrown}
use choice_mind.Research.Tables.{update_where}
use choice_mind.Research.Tables.Rows.{In, All-at, All-every, All-update_where, In-update_where_hit}
use choice_mind.SourceAccess.Tables.{
  active, CredentialRow, LoginRow, CompleteLoginCommand, SourceStatus, AccessError, Answer,
  VaultPort, World,
}
use choice_mind.SourceAccess.Logins.{
  owns_scope, is_account, is_session, is_login_completed, upsert, upsert_row, complete_row,
  delete_input, store_input, forget, delete_replaced, clean_up, other_credential, complete_stored,
  complete_found, complete_login, credential_id_of,
}

-- What the vault's calls for this owner do to the ids of the owner's secrets that it holds: storing adds at
-- most the one that is stored, deleting adds none, and a deletion that returns has removed its own.
pub record HoldsLaws {W Operation : Type 0} (port : VaultPort W Operation)
    (Holds : W → String → Type 0) (owner_user_id : String) : Type 0 where
  pub store_adds :
      (input : StoreCredentialInput) (v : W) (x : String)
      → input.owner_user_id ≡ owner_user_id
      → Holds (port.store input v).1 x
      → Holds v x ⊎ (x ≡ input.credential_id)
  pub delete_keeps :
      (input : UseInput) (v : W) (x : String)
      → input.owner_user_id ≡ owner_user_id
      → Holds (port.delete input v).1 x
      → Holds v x
  pub delete_removes :
      (input : UseInput) (v : W) (b : Bool)
      → input.owner_user_id ≡ owner_user_id
      → (port.delete input v).0 ≡ returned b
      → ¬ Holds (port.delete input v).1 input.credential_id

-- Some row still names the secret: the credential of an account, or one that a login is to delete.
abbrev pub Referenced : {W : Type 0} → World W → String → Type 0
Referenced w x =
    Any (λ r. r.credential_id ≡ x) w.credentials
    ⊎ Any (λ l. l.replaced_credential_id ≡ some x) w.logins

abbrev pub NoOrphan : {W : Type 0} → (W → String → Type 0) → World W → Type 0
NoOrphan Holds w = (x : String) → Holds w.vault x → Referenced w x

-- The primary keys that a login touches.
pub record IsKeyed {W : Type 0} (command : CompleteLoginCommand) (w : World W) : Type 0 where
  pub one_session :
      (l l' : LoginRow)
      → In l w.logins
      → In l' w.logins
      → is_session command.login_session_id command.owner_user_id l ≡ true
      → is_session command.login_session_id command.owner_user_id l' ≡ true
      → l ≡ l'
  pub one_account :
      (source_id source_account_id : String) (r r' : CredentialRow)
      → In r w.credentials
      → In r' w.credentials
      → is_account command.owner_user_id source_id source_account_id r ≡ true
      → is_account command.owner_user_id source_id source_account_id r' ≡ true
      → r ≡ r'

-- A login that still waits has replaced nothing.
abbrev pub WaitsClean : {W : Type 0} → World W → Type 0
WaitsClean w =
    All (λ l. is_login_completed l.status ≡ false → l.replaced_credential_id ≡ none) w.logins

-- A row that met a condition still does, or the update went through it.
pub Any-update_where :
    {A : Type 0} (P : A → Type 0) (p : A → Bool) (f : A → A) (xs : List A)
    → Any P xs
    → Any P (update_where p f xs) ⊎ ((x : A) × In x xs × P x × (p x ≡ true))
Any-update_where P p f [] h = absurd h
Any-update_where P p f (x ∷ xs) (inl h) = elim (Bool-cases (p x)) [
  | inl e ↦ inr (x, inl refl, h, e)
  | inr e ↦ inl (rw e (inl h))
]
Any-update_where P p f (x ∷ xs) (inr h) = elim (Any-update_where P p f xs h) [
  | inl k ↦ inl (inr k)
  | inr (y, i, q, e) ↦ inr (y, inr i, q, e)
]

pub find-some :
    {A : Type 0} (p : A → Bool) (xs : List A) (x : A) → find p xs ≡ some x → In x xs × (p x ≡ true)
find-some p [] x e = cc
find-some p (y ∷ ys) x e = elim (Bool-cases (p y)) [
  | inl h ↦ let e' : y ≡ x = ground arith in (inl e', subst (λ z. p z ≡ true) e' h)
  | inr h ↦ let (i, q) = find-some p ys x (rw h at e) in (inr i, q)
]

pub In-Any : {A : Type 0} (P : A → Type 0) (xs : List A) (x : A) → In x xs → P x → Any P xs
In-Any P [] x i h = absurd i
In-Any P (y ∷ ys) x (inl e) h = inl (subst P (sym e) h)
In-Any P (y ∷ ys) x (inr i) h = inr (In-Any P ys x i h)

-- The rows of the session that the command completes.
abbrev pub session_of : CompleteLoginCommand → LoginRow → Bool
session_of command = is_session command.login_session_id command.owner_user_id
