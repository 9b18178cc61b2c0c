-- ===== src/Contract/Recovery/Permission.antt =====
-- packages/contracts/src/decision/v1/index.ts: when a run may be resumed.
use choice_mind.Prelude.{
  ◌≡◌, refl, ◌↔◌, ◌⊎◌, inl, inr, true, false, ◌||◌, List, [], ◌∷◌, map, Option, none, some, arith,
  eq_iff, any, Any, All, Bool-cases, subst, sym,
}
use choice_mind.Contract.Types.{
  TaskState, paused_user, paused_permission, paused_source_login, paused_limit,
}
use choice_mind.Contract.Statuses.{is_none}
use choice_mind.Contract.Recovery.{
  RuntimeSnapshot, EffectState, started, unknown, EffectReceipt, resume_allowed,
  manual_verification_required, RecoveryIdentity, RecoveryInputs, is_paused, is_unsafe,
  own_checkpoint, check_snapshot, is_foreign, is_unsafe_receipt, permit, permit_decoded,
  decode_runtime_snapshot, evaluate_runtime_recovery_permission,
}

-- The receipt can be read and is of the snapshot's run and checkpoint.
abbrev pub IsOwn : RuntimeSnapshot → Option EffectReceipt → Type 0
IsOwn snapshot none = ⊥
IsOwn snapshot (some receipt) =
    (receipt.decision_task_id ≡ snapshot.decision_task_id)
    × ((receipt.agent_run_id ≡ snapshot.agent_run_id)
        × (receipt.checkpoint_id ≡ snapshot.checkpoint.checkpoint_id))

-- The effect of the receipt may have happened, and nobody knows its result.
abbrev pub IsUnsafe : Option EffectReceipt → Type 0
IsUnsafe none = ⊥
IsUnsafe (some receipt) = (receipt.state ≡ started) ⊎ (receipt.state ≡ unknown)

abbrev pub IsPaused : TaskState → Type 0
IsPaused s =
    (s ≡ paused_user) ⊎ ((s ≡ paused_permission) ⊎ ((s ≡ paused_source_login) ⊎ (s ≡ paused_limit)))

is_paused_iff : (s : TaskState) → (is_paused s ≡ true) ↔ IsPaused s
is_paused_iff s = ground arith

is_unsafe_iff : (s : EffectState) → (is_unsafe s ≡ true) ↔ ((s ≡ started) ⊎ (s ≡ unknown))
is_unsafe_iff s = ground arith

is_unsafe_receipt_iff : (o : Option EffectReceipt) → (is_unsafe_receipt o ≡ true) ↔ IsUnsafe o
unfolding is_unsafe_receipt
is_unsafe_receipt_iff none = (λ h. cc h, λ h. absurd h)
is_unsafe_receipt_iff (some r) = is_unsafe_iff r.state

is_foreign_iff :
    (snapshot : RuntimeSnapshot) (o : Option EffectReceipt)
    → ((is_none o || is_foreign snapshot o) ≡ false) ↔ IsOwn snapshot o
unfolding is_foreign
is_foreign_iff snapshot none = (λ h. cc h, λ h. absurd h)
is_foreign_iff snapshot (some r) = ground (
  arith,
  eq_iff r.decision_task_id snapshot.decision_task_id,
  eq_iff r.agent_run_id snapshot.agent_run_id,
  eq_iff r.checkpoint_id snapshot.checkpoint.checkpoint_id,
)

no_stranger_iff :
    (snapshot : RuntimeSnapshot) (receipts : List (Option EffectReceipt))
    → ((any is_none receipts || any (is_foreign snapshot) receipts) ≡ false)
      ↔ All (IsOwn snapshot) receipts
no_stranger_iff snapshot [] = (λ h. tt, λ h. refl)
no_stranger_iff snapshot (o ∷ receipts) =
    ground (arith, is_foreign_iff snapshot o, no_stranger_iff snapshot receipts)

any_open_iff :
    (receipts : List (Option EffectReceipt))
    → (any is_unsafe_receipt receipts ≡ true) ↔ Any IsUnsafe receipts
any_open_iff [] = (λ h. cc h, λ h. absurd h)
any_open_iff (o ∷ receipts) = ground (arith, is_unsafe_receipt_iff o, any_open_iff receipts)

-- The facts are sound and a stop was asked for: own receipts, a paused task, a resumable snapshot.
abbrev pub IsResumable : RuntimeSnapshot → List (Option EffectReceipt) → Type 0
IsResumable snapshot receipts =
    All (IsOwn snapshot) receipts × (IsPaused snapshot.task_state × (snapshot.resumable ≡ true))

permit_iff :
    (snapshot : RuntimeSnapshot) (receipts : List (Option EffectReceipt))
    → (((permit snapshot receipts).decision ≡ resume_allowed)
        ↔ (IsResumable snapshot receipts × (¬ Any IsUnsafe receipts)))
      × (((permit snapshot receipts).decision ≡ manual_verification_required)
          ↔ (IsResumable snapshot receipts × Any IsUnsafe receipts))
unfolding permit
permit_iff snapshot receipts =
    let own = no_stranger_iff snapshot receipts in
    let unsafe = any_open_iff receipts in
    let paused = is_paused_iff snapshot.task_state in
    (ground (arith, own, unsafe, paused), ground (arith, own, unsafe, paused))

-- The checkpoint is of the snapshot's own run.
abbrev pub HasOwnCheckpoint : RuntimeSnapshot → Type 0
HasOwnCheckpoint snapshot =
    (snapshot.checkpoint.decision_task_id ≡ snapshot.decision_task_id)
    × (snapshot.checkpoint.agent_run_id ≡ snapshot.agent_run_id)

own_checkpoint_iff : (s : RuntimeSnapshot) → (own_checkpoint s ≡ true) ↔ HasOwnCheckpoint s
unfolding own_checkpoint
own_checkpoint_iff s = ground (
  arith,
  eq_iff s.checkpoint.decision_task_id s.decision_task_id,
  eq_iff s.checkpoint.agent_run_id s.agent_run_id,
)

same_snapshot : {s t : RuntimeSnapshot} → some s ≡ some t → s ≡ t
same_snapshot k = cc k

check_snapshot_iff :
    (o : Option RuntimeSnapshot) (snapshot : RuntimeSnapshot)
    → (check_snapshot o ≡ some snapshot) ↔ ((o ≡ some snapshot) × HasOwnCheckpoint snapshot)
unfolding check_snapshot
check_snapshot_iff none snapshot = (λ h. cc h, λ (h, _). cc h)
check_snapshot_iff (some s) snapshot =
    let own = own_checkpoint_iff s in
    elim (Bool-cases (own_checkpoint s)) [
      | inl own_ ↦
          rw own_ (λ h. (h, subst HasOwnCheckpoint (same_snapshot h) (own.0 own_)), λ (h, _). h)
      | inr other ↦ rw other (
        λ h. cc h,
        λ (h, a). cc (other, own.1 (subst HasOwnCheckpoint (sym (same_snapshot h)) a)),
      )
    ]

permit_decoded_iff :
    (o : Option RuntimeSnapshot) (identity : RecoveryIdentity)
    (receipts : List (Option EffectReceipt))
    → (((permit_decoded o identity receipts).decision ≡ resume_allowed) ↔ (
        (snapshot : RuntimeSnapshot) × ((o ≡ some snapshot)
          × (IsResumable snapshot receipts × (¬ Any IsUnsafe receipts)))))
      × (((permit_decoded o identity receipts).decision ≡ manual_verification_required) ↔ (
          (snapshot : RuntimeSnapshot) × ((o ≡ some snapshot)
            × (IsResumable snapshot receipts × Any IsUnsafe receipts))))
unfolding permit_decoded
permit_decoded_iff none identity receipts =
    ((λ h. cc h, λ (s, (k, _)). cc k), (λ h. cc h, λ (s, (k, _)). cc k))
permit_decoded_iff (some s) identity receipts =
    let (allowed, manual) = permit_iff s receipts in
    (
      (
        λ h. (s, (refl, allowed.0 h)),
        λ (t, (k, p)). allowed.1 (
            subst (λ x. IsResumable x receipts × (¬ Any IsUnsafe receipts)) (sym (same_snapshot k))
              p),
      ),
      (
        λ h. (s, (refl, manual.0 h)),
        λ (t, (k, p)).
            manual.1 (
              subst (λ x. IsResumable x receipts × Any IsUnsafe receipts) (sym (same_snapshot k))
                p),
      ),
    )

-- The snapshot can be read, its checkpoint is of its own run, every receipt can be read and is of that run and
-- checkpoint, the task is paused and the snapshot may be resumed.
abbrev pub MayResume : {Input : Type 0} → RecoveryInputs Input → Input → List Input → Type 0
MayResume inputs input receipts =
    (snapshot : RuntimeSnapshot) × ((inputs.parse_snapshot input ≡ some snapshot)
      × (HasOwnCheckpoint snapshot × IsResumable snapshot (map inputs.parse_receipt receipts)))

module _ {Input : Type 0} (inputs : RecoveryInputs Input) where
  -- A run may be resumed exactly when the facts of its recovery are sound, the task is paused, the snapshot
  -- may be resumed, and no effect has started or is unknown; with the same facts but such an effect, and
  -- only then, a person must look.
  pub evaluate_runtime_recovery_permission_iff :
      (input : Input) (receipts : List Input)
      → let decision = (evaluate_runtime_recovery_permission inputs input receipts).decision in
        ((decision ≡ resume_allowed) ↔ (
          MayResume inputs input receipts × (¬ Any IsUnsafe (map inputs.parse_receipt receipts))))
        × ((decision ≡ manual_verification_required)
            ↔ (MayResume inputs input receipts × Any IsUnsafe (map inputs.parse_receipt receipts)))
  unfolding evaluate_runtime_recovery_permission decode_runtime_snapshot
  evaluate_runtime_recovery_permission_iff input receipts =
      let parsed = map inputs.parse_receipt receipts in
      let (allowed, manual) =
        permit_decoded_iff (check_snapshot (inputs.parse_snapshot input))
          (inputs.identity_from_unknown input) parsed in
      (
        (
          λ h.
              let (s, (k, (r, u))) = allowed.0 h in
              let (p, own) = (check_snapshot_iff (inputs.parse_snapshot input) s).0 k in
              ((s, (p, (own, r))), u),
          λ ((s, (p, (own, r))), u).
              allowed.1
                (s, ((check_snapshot_iff (inputs.parse_snapshot input) s).1 (p, own), (r, u))),
        ),
        (
          λ h.
              let (s, (k, (r, u))) = manual.0 h in
              let (p, own) = (check_snapshot_iff (inputs.parse_snapshot input) s).0 k in
              ((s, (p, (own, r))), u),
          λ ((s, (p, (own, r))), u).
              manual.1
                (s, ((check_snapshot_iff (inputs.parse_snapshot input) s).1 (p, own), (r, u))),
        ),
      )
