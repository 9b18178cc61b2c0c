-- ===== src/Security/Vault/Audit.antt =====
-- The audit trail of the vault's calls: which results a call leaves, by how it ends.
use mathlib.Core.List.{append_assoc, append-nil, map-append}
use choice_mind.Prelude.{
  ◌+◌, ◌≡◌, refl, subst, sym, ap, ◌∙◌, ◌⊎◌, inl, inr, List, [], ◌∷◌, ◌++◌, map, Bool-cases,
}
use choice_mind.Security.Vault.Monad.{
  CredentialAuditRecord, AuditAction, AuditResult, VaultError, audit_rejected, World, Outcome,
  returned, thrown, bind_outcome, M, ◌>>=◌, ◌>>◌, throw, VaultOptions, AuditSubject, audit_record,
  append_credential_audit,
}

-- The call added records with these results, in this order, and nothing else, to the trail.
abbrev pub Leaves : {S : Type 0} → World S → List AuditResult → World S → Type 0
Leaves w rs w' =
    (es : List CredentialAuditRecord) × (w'.audit ≡ w.audit ++ es) × (map (λ e. e.result) es ≡ rs)

-- A call that began at `w` has ended, with an outcome that its new records account for.
abbrev pub Ended :
    {S A : Type 0}
    → (Outcome A → List AuditResult → Type 0)
    → World S
    → Outcome A × World S
    → Type 0
Ended T w (o, w') = (rs : List AuditResult) × T o rs × Leaves w rs w'

pub Leaves-nil : {S : Type 0} (w : World S) → Leaves w [] w
Leaves-nil w = ([], sym (append-nil w.audit), refl)

module _ {S : Type 0} (options : VaultOptions) (subject : AuditSubject) (action : AuditAction) where
  abbrev pub audited : AuditResult → M S (Unit {0})
  audited = append_credential_audit options subject action

  -- One more record and then `k`, or a refusal by the audit port that leaves the trail as it was.
  pub audited_then :
      {A : Type 0} (result : AuditResult) (k : M S A) (w₀ w : World S) (rs : List AuditResult)
      → Leaves w₀ rs w
      → ((w' : World S) × ((audited result >> k) w ≡ k w')
          × Leaves w₀ (rs ++ result ∷ []) w'
          × (w'.storage ≡ w.storage))
        ⊎ ((w' : World S) × ((audited result >> k) w ≡ (thrown audit_rejected, w'))
            × Leaves w₀ rs w')
  unfolding append_credential_audit audit_record
  audited_then result k w₀ w rs (es, added, results) =
      let entry = audit_record options subject action result w.ticks in
      elim (Bool-cases (options.audit_accepts w.audit entry)) [
        | inl yes_ ↦ inl (
          record w { audit = w.audit ++ entry ∷ []; ticks = w.ticks + 1 },
          rw yes_,
          (
            es ++ entry ∷ [],
            ap (λ l. l ++ entry ∷ []) added ∙ append_assoc w₀.audit es (entry ∷ []),
            map-append _ es (entry ∷ []) ∙ ap (λ l. l ++ result ∷ []) results,
          ),
          refl,
        )
        | inr no_ ↦ inr (record w { ticks = w.ticks + 1 }, rw no_, (es, added, results))
      ]

  -- A call ends with one more record and an outcome that does not touch the world.
  pub last_record :
      {A : Type 0} (T : Outcome A → List AuditResult → Type 0) (result : AuditResult) (k : M S A)
      (o : Outcome A) (w₀ w : World S) (rs : List AuditResult)
      → ((w' : World S) → k w' ≡ (o, w'))
      → T (thrown audit_rejected) rs
      → T o (rs ++ result ∷ [])
      → Leaves w₀ rs w
      → Ended T w₀ ((audited result >> k) w)
  last_record T result k o w₀ w rs ends rejected accepted l =
      elim (audited_then result k w₀ w rs l) [
        | inl (w', e, l', _) ↦ (rs ++ result ∷ [], rw (e, ends w') accepted, rw (e, ends w') l')
        | inr (w', e, l') ↦ (rs, rw e rejected, rw e l')
      ]

-- A handler that records and throws ends the call that it stands in.
bind_assoc :
    {S A B C : Type 0} (p : Outcome A × World S) (k : A → M S B) (f : B → M S C)
    → bind_outcome (bind_outcome p k) f ≡ bind_outcome p (λ a. k a >>= f)
bind_assoc (returned a, w) k f = refl
bind_assoc (thrown e, w) k f = refl

pub failing_handler :
    {S A B : Type 0} (options : VaultOptions) (subject : AuditSubject) (action : AuditAction)
    (T : Outcome B → List AuditResult → Type 0) (result : AuditResult) (e : VaultError)
    (f : A → M S B) (w₀ w : World S) (rs : List AuditResult)
    → T (thrown audit_rejected) rs
    → T (thrown e) (rs ++ result ∷ [])
    → Leaves w₀ rs w
    → Ended T w₀ (((audited options subject action result >> throw e) >>= f) w)
failing_handler options subject action T result e f w₀ w rs rejected accepted l =
    subst (Ended T w₀) (sym (bind_assoc (audited options subject action result w) (λ _. throw e) f))
      (last_record options subject action T result (throw e >>= f) (thrown e) w₀ w rs (λ _. refl)
        rejected accepted l)

-- The same under one more bind.
pub failing_handler_twice :
    {S A B C : Type 0} (options : VaultOptions) (subject : AuditSubject) (action : AuditAction)
    (T : Outcome C → List AuditResult → Type 0) (result : AuditResult) (e : VaultError)
    (f : A → M S B) (g : B → M S C) (w₀ w : World S) (rs : List AuditResult)
    → T (thrown audit_rejected) rs
    → T (thrown e) (rs ++ result ∷ [])
    → Leaves w₀ rs w
    → Ended T w₀ ((((audited options subject action result >> throw e) >>= f) >>= g) w)
failing_handler_twice options subject action T result e f g w₀ w rs rejected accepted l =
    subst (Ended T w₀) (sym (bind_assoc ((audited options subject action result >> throw e) w) f g))
      (failing_handler options subject action T result e (λ a. f a >>= g) w₀ w rs rejected accepted
        l)
