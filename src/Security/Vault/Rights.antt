-- ===== src/Security/Vault/Rights.antt =====
-- packages/security/src/index.ts: whom the vault serves, and what it leaves of those that it refuses.
use choice_mind.Prelude.{
  String, ◌≡◌, ◌⊎◌, ◌↔◌, refl, inl, inr, Bool, true, false, List, [], ◌∷◌, some, arith, Any,
  Any-map, any, any_iff, eq_iff, eqb_iff, Option-cases,
}
use choice_mind.Security.Actors.{
  SecurityActor, is_system, SecretType, same_secret_type, SystemAction, same_action,
  SystemCredentialAccess,
}
use choice_mind.Security.Vault.Monad.{
  EncryptedCredentialRecord, AuditResult, denied, VaultError, audit_rejected, Outcome, thrown,
  VaultOptions,
}
use choice_mind.Security.Vault.{allows_system_access, may_access, system_reads}

-- A person who is the owner.
abbrev pub IsOwner : SecurityActor → String → Type 0
IsOwner actor owner_user_id = (is_system actor.role ≡ false) × (actor.user_id ≡ owner_user_id)

-- The system, as the very actor that its access names, for an action that the access lists.
abbrev pub IsGranted : VaultOptions → SecurityActor → SystemAction → Type 0
IsGranted options actor action =
    (is_system actor.role ≡ true)
    × ((access : SystemCredentialAccess) × (options.system_access ≡ some access)
        × (actor.object_id ≡ access.actor.object_id)
        × Any (λ a. a ≡ action) access.actions)

abbrev pub IsEntitled : VaultOptions → SecurityActor → String → SystemAction → Type 0
IsEntitled options actor owner_user_id action =
    IsOwner actor owner_user_id ⊎ IsGranted options actor action

-- A record of the one type that the system's access names.
abbrev pub IsReadable : VaultOptions → EncryptedCredentialRecord → Type 0
IsReadable options r =
    (access : SystemCredentialAccess) × (options.system_access ≡ some access)
    × (r.secret_type ≡ access.secret_type)

-- A refused call leaves DENIED alone, or nothing where the audit port rejects that.
pub data RefusedTrail {A : Type 0} (e : VaultError) : Outcome A → List AuditResult → Type 0 where
  refused : RefusedTrail e (thrown e) (denied ∷ [])
  silent : RefusedTrail e (thrown audit_rejected) []

pub not-true : (b : Bool) → ¬ (b ≡ true) → b ≡ false
not-true b h = ground arith

same_action_iff : (a b : SystemAction) → (same_action a b ≡ true) ↔ (b ≡ a)
same_action_iff a b = ground arith

same_secret_type_iff : (a b : SecretType) → (same_secret_type a b ≡ true) ↔ (a ≡ b)
same_secret_type_iff a b = ground arith

lists_iff :
    (action : SystemAction) (actions : List SystemAction)
    → (any (same_action action) actions ≡ true) ↔ Any (λ a. a ≡ action) actions
lists_iff action actions = (
  λ h.
      Any-map (λ a e. (same_action_iff action a).0 e) actions
        ((any_iff (same_action action) actions).0 h),
  λ h.
      (any_iff (same_action action) actions).1
        (Any-map (λ a e. (same_action_iff action a).1 e) actions h),
)

allows_system_access_iff :
    (options : VaultOptions) (actor : SecurityActor) (action : SystemAction)
    → (allows_system_access options.system_access actor action ≡ true)
      ↔ IsGranted options actor action
unfolding allows_system_access
allows_system_access_iff options actor action = elim (Option-cases options.system_access) [
  | inl e ↦ (
    λ h. absurd (cc (rw e at h)),
    λ (robot, (access, known, same, listed)). absurd (cc (e, known)),
  )
  | inr (access, e) ↦ (
    λ h.
        let h' = rw e at h in
        let same = eqb_iff actor.object_id access.actor.object_id in
        (
          ground arith,
          (access, e, ground (arith, same), (lists_iff action access.actions).0 (ground arith)),
        ),
    λ (robot, (access', known, same, listed)).
        let listed' = (lists_iff action access'.actions).1 listed in
        let same' = (eqb_iff actor.object_id access'.actor.object_id).1 same in
        rw (known, allows_system_access) (rw (robot, same', listed') refl),
  )
]

pub may_access_iff :
    (options : VaultOptions) (actor : SecurityActor) (owner_user_id : String)
    (action : SystemAction)
    → (may_access options actor owner_user_id action ≡ true)
      ↔ IsEntitled options actor owner_user_id action
unfolding may_access
may_access_iff options actor owner_user_id action =
    let granted = allows_system_access_iff options actor action in
    let owner = eq_iff actor.user_id owner_user_id in ground (arith, granted, owner)

pub system_reads_iff :
    (options : VaultOptions) (r : EncryptedCredentialRecord)
    → (system_reads options.system_access r.secret_type ≡ true) ↔ IsReadable options r
system_reads_iff options r = elim (Option-cases options.system_access) [
  | inl e ↦ (λ h. absurd (cc (rw e at h)), λ (access, known, _). absurd (cc (e, known)))
  | inr (access, e) ↦ (
    λ h. (access, e, (same_secret_type_iff r.secret_type access.secret_type).0 (rw e at h)),
    λ (access', known, same).
        rw known ((same_secret_type_iff r.secret_type access'.secret_type).1 same),
  )
]
