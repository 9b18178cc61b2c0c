-- ===== src/SourceAccess/Secrets/Deletions.antt =====
-- packages/source-access/src/index.ts: deleting the replaced secret, and the new one where a login fails.
use mathlib.Core.Option.{some-injective}
use choice_mind.Prelude.{
  String, ◌≡◌, ◌≢◌, ◌⊎◌, refl, sym, subst, ◌∙◌, inl, inr, Bool, true, Option, none, some,
}
use choice_mind.Security.Actors.{SecurityActor}
use choice_mind.Security.Vault.Monad.{Outcome, VaultError, returned, thrown}
use choice_mind.Research.Tables.Rows.{In}
use choice_mind.SourceAccess.Tables.{
  LoginRow, CompleteLoginCommand, SourceStatus, AccessError, Answer, VaultPort, World,
}
use choice_mind.SourceAccess.Logins.{delete_input, forget, delete_replaced, clean_up}
use choice_mind.SourceAccess.Secrets.{HoldsLaws, NoOrphan, Any-update_where, session_of}

module _ {W Operation : Type 0} (port : VaultPort W Operation) (system_actor : Option SecurityActor)
    (Holds : W → String → Type 0) (command : CompleteLoginCommand)
    (laws : HoldsLaws port Holds command.owner_user_id) where
  -- Deleting the replaced credential, the only one that the session's rows speak of.
  forget-NoOrphan :
      (p : Outcome Bool × W) (replaced : String) (answer : Answer SourceStatus) (w : World W)
      → ((x : String) → Holds p.1 x → Holds w.vault x)
      → ((b : Bool) → p.0 ≡ returned b → ¬ Holds p.1 replaced)
      → ((l : LoginRow)
          → In l w.logins
          → session_of command l ≡ true
          → l.replaced_credential_id ≡ some replaced)
      → NoOrphan Holds w
      → NoOrphan Holds (forget port system_actor command p answer w).1
  unfolding forget
  forget-NoOrphan (thrown e, v) replaced answer w keeps removes only known x h = known x (keeps x h)
  forget-NoOrphan (returned b, v) replaced answer w keeps removes only known x h =
      elim (known x (keeps x h)) [
        | inl r ↦ inl r
        | inr l ↦
            elim (Any-update_where (λ m. m.replaced_credential_id ≡ some x) (session_of command) _
              w.logins l) [
                | inl k ↦ inr k
                | inr (y, i, q, e) ↦
                    let same : x ≡ replaced = some-injective x replaced (sym q ∙ only y i e) in
                    absurd (removes b refl (subst (Holds v) same h))
              ]
      ]

  pub delete_replaced-NoOrphan :
      (replaced : Option String) (answer : Answer SourceStatus) (w : World W)
      → ((x : String) (l : LoginRow)
          → replaced ≡ some x
          → In l w.logins
          → session_of command l ≡ true
          → l.replaced_credential_id ≡ some x)
      → NoOrphan Holds w
      → NoOrphan Holds (delete_replaced port system_actor command replaced answer w).1
  unfolding delete_replaced
  delete_replaced-NoOrphan none answer w only known = known
  delete_replaced-NoOrphan (some y) answer w only known =
      forget-NoOrphan (port.delete (delete_input port system_actor y command) w.vault) y answer w
        (λ x h. laws.delete_keeps (delete_input port system_actor y command) w.vault x refl h)
        (λ b e. laws.delete_removes (delete_input port system_actor y command) w.vault b refl e)
        (λ l i e. only y l refl i e) known

  -- A stored secret that is not committed is deleted again, if that deletion goes through.
  pub clean_up-NoOrphan :
      (p : Outcome Bool × W) (credential_id : String) (error : AccessError) (w : World W)
      → ((x : String) → Holds p.1 x → Holds w.vault x ⊎ (x ≡ credential_id))
      → ((b : Bool) → p.0 ≡ returned b → ¬ Holds p.1 credential_id)
      → ((e : VaultError) → p.0 ≢ thrown e)
      → NoOrphan Holds w
      → NoOrphan Holds (clean_up port system_actor p error w).1
  unfolding clean_up
  clean_up-NoOrphan (thrown e, v) credential_id error w keeps removes returns known x h =
      absurd (returns e refl)
  clean_up-NoOrphan (returned b, v) credential_id error w keeps removes returns known x h =
      elim (keeps x h) [
        | inl old ↦ known x old
        | inr new ↦ absurd (removes b refl (subst (Holds v) new h))
      ]
