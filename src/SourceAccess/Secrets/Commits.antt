-- ===== src/SourceAccess/Secrets/Commits.antt =====
-- packages/source-access/src/index.ts: the rows that completing a login commits.
use choice_mind.Prelude.{
  ℕ, String, ◌≡◌, ◌⊎◌, refl, sym, subst, ap, ◌∙◌, inl, inr, true, false, [], ◌∷◌, Option, none,
  some, Any, Any-append, find,
}
use choice_mind.Research.Tables.{update_where}
use choice_mind.Research.Tables.Rows.{In, All-at, In-update_where_hit}
use choice_mind.SourceAccess.Tables.{active, CredentialRow, LoginRow, CompleteLoginCommand, World}
use choice_mind.SourceAccess.Logins.{
  is_account, is_login_completed, upsert, upsert_row, complete_row, credential_id_of,
}
use choice_mind.SourceAccess.Secrets.{
  NoOrphan, IsKeyed, WaitsClean, Any-update_where, find-some, In-Any, session_of,
}

module _ {W : Type 0} (Holds : W → String → Type 0) (command : CompleteLoginCommand) where
  -- The rows as they are committed: the new secret is named by its account, the old one by the session.
  abbrev pub committed_rows : String → ℕ → LoginRow → Option CredentialRow → W → World W → World W
  committed_rows credential_id t login old v w = record w {
    vault = v;
    credentials = upsert login command.owner_user_id credential_id t old w.credentials;
    logins = update_where (session_of command) (complete_row t (credential_id_of old)) w.logins;
  }

  module _ (credential_id : String) (t : ℕ) (login : LoginRow) (w : World W) (k : IsKeyed command w)
      (clean : WaitsClean w) (here : In login w.logins) (this : session_of command login ≡ true)
      (waits : is_login_completed login.status ≡ false) where
    upsert-new :
        (old : Option CredentialRow)
        → find
            (is_account command.owner_user_id login.source_id login.source_account_id)
            w.credentials
          ≡ old
        → Any
            (λ r. r.credential_id ≡ credential_id)
            (upsert login command.owner_user_id credential_id t old w.credentials)
    unfolding upsert upsert_row
    upsert-new none e =
        (Any-append _ w.credentials
            (upsert_row login command.owner_user_id credential_id t none ∷ [])).1
          (inr (inl refl))
    upsert-new (some old) e =
        let (i, q) = find-some _ w.credentials old e in
        In-Any _ _ _
          (In-update_where_hit _
            (λ row. record row { credential_id = credential_id; status = active; updated_at = t })
            w.credentials old q i)
          refl

    upsert-kept :
        (old : Option CredentialRow) (x : String)
        → find
            (is_account command.owner_user_id login.source_id login.source_account_id)
            w.credentials
          ≡ old
        → Any (λ r. r.credential_id ≡ x) w.credentials
        → Any
            (λ r. r.credential_id ≡ x)
            (upsert login command.owner_user_id credential_id t old w.credentials)
          ⊎ (credential_id_of old ≡ some x)
    unfolding upsert
    upsert-kept none x e h = inl (
        (Any-append _ w.credentials
            (upsert_row login command.owner_user_id credential_id t none ∷ [])).1
          (inl h))
    upsert-kept (some old) x e h =
        let (i, q) = find-some _ w.credentials old e in
        elim (Any-update_where (λ r. r.credential_id ≡ x)
          (is_account command.owner_user_id login.source_id login.source_account_id) _ w.credentials
          h) [
            | inl kept ↦ inl kept
            | inr (r, j, named, hit) ↦ inr (
                ap some (
                  ap (λ (c : CredentialRow). c.credential_id)
                    (k.one_account login.source_id login.source_account_id old r i j q hit)
                  ∙ named))
          ]

    pub committed-NoOrphan :
        (old : Option CredentialRow) (v : W)
        → find
            (is_account command.owner_user_id login.source_id login.source_account_id)
            w.credentials
          ≡ old
        → ((x : String) → Holds v x → Holds w.vault x ⊎ (x ≡ credential_id))
        → NoOrphan Holds w
        → NoOrphan Holds (committed_rows credential_id t login old v w)
    committed-NoOrphan old v e adds known x h = elim (adds x h) [
      | inr new ↦ inl (
          subst
            (λ y.
              Any (λ r. r.credential_id ≡ y)
                (upsert login command.owner_user_id credential_id t old w.credentials))
            (sym new) (upsert-new old e))
      | inl before ↦ elim (known x before) [
        | inl r ↦ elim (upsert-kept old x e r) [
          | inl kept ↦ inl kept
          | inr gone ↦ inr (
              In-Any (λ l. l.replaced_credential_id ≡ some x) _
                (complete_row t (credential_id_of old) login)
                (In-update_where_hit (session_of command) (complete_row t (credential_id_of old))
                  w.logins login this here)
                (unfold complete_row in gone))
        ]
        | inr l ↦
            elim (Any-update_where (λ m. m.replaced_credential_id ≡ some x) (session_of command)
              (complete_row t (credential_id_of old)) w.logins l) [
                | inl kept ↦ inr kept
                | inr (m, i, named, hit) ↦
                    let m-is : m ≡ login = k.one_session m login i here hit this in
                    let unreplaced : m.replaced_credential_id ≡ none =
                      subst (λ (z : LoginRow). z.replaced_credential_id ≡ none) (sym m-is)
                        (All-at _ w.logins login clean here waits) in
                    absurd (cc unreplaced)
              ]
      ]
    ]
