-- ===== src/Contract/Recovery.antt =====
-- packages/contracts/src/decision/v1/index.ts: `evaluateRuntimeRecoveryPermissionV1`, which decides whether
-- a paused run may be resumed from its snapshot and the receipts of its effects. What the version scans and
-- the schemas read from an unknown input is a parameter.
pub mod Permission
use choice_mind.Prelude.{
  ℕ, String, Bool, true, false, not, ◌&&◌, ◌||◌, List, [], ◌∷◌, map, Option, none, some,
  if◌then◌else◌, ◌==◌, any,
}
use choice_mind.Contract.Types.{
  Timestamp, TaskState, paused_user, paused_permission, paused_source_login, paused_limit,
}
use choice_mind.Contract.Statuses.{is_none}

pub record CheckpointRef : Type 0 where
  pub checkpoint_id : String
  pub decision_task_id : String
  pub agent_run_id : String
  pub sequence : ℕ
  pub persisted_at : Timestamp

-- The runtime protocol is a single literal. The algorithm of a digest is too.
pub record RawRuntimeSnapshotRef : Type 0 where
  pub digest : String
  pub object_key : String

pub record RuntimeSnapshot : Type 0 where
  pub snapshot_id : String
  pub decision_task_id : String
  pub agent_run_id : String
  pub task_state : TaskState
  pub resumable : Bool
  pub raw_snapshot : RawRuntimeSnapshotRef
  pub checkpoint : CheckpointRef
  pub captured_at : Timestamp

pub record EffectResultRef : Type 0 where
  pub digest : String
  pub object_key : String
  pub decision_task_id : String
  pub agent_run_id : String
  pub checkpoint_id : String
  pub effect_id : String

-- Only a committed effect has a result.
pub data EffectState : Type 0 where
  not_started started unknown : EffectState
  committed : EffectResultRef → EffectState

pub record EffectReceipt : Type 0 where
  pub effect_receipt_id : String
  pub decision_task_id : String
  pub agent_run_id : String
  pub checkpoint_id : String
  pub effect_id : String
  pub recorded_at : Timestamp
  pub state : EffectState

pub record RecoveryIdentity : Type 0 where
  pub decision_task_id : String
  pub agent_run_id : String
  pub snapshot_id : String

pub data RecoveryDecision : Type 0 where
  resume_allowed resume_denied manual_verification_required : RecoveryDecision

pub data RecoveryReason : Type 0 where
  safe_to_resume task_not_paused snapshot_not_resumable effect_status_unsafe : RecoveryReason
  recovery_facts_invalid : RecoveryReason

pub record RuntimeRecoveryPermission : Type 0 where
  pub identity : RecoveryIdentity
  pub decision : RecoveryDecision
  pub reason : RecoveryReason

-- `recoveryIdentityFromUnknown` reads what it can; the other two are none where the input is refused.
pub record RecoveryInputs (Input : Type 0) : Type 0 where
  pub parse_snapshot : Input → Option RuntimeSnapshot
  pub parse_receipt : Input → Option EffectReceipt
  pub identity_from_unknown : Input → RecoveryIdentity

-- `taskState.startsWith("PAUSED_")`
abbrev pub is_paused : TaskState → Bool
is_paused paused_user = true
is_paused paused_permission = true
is_paused paused_source_login = true
is_paused paused_limit = true
is_paused _ = false

-- The state is `started` or `unknown`.
abbrev pub is_unsafe : EffectState → Bool
is_unsafe started = true
is_unsafe unknown = true
is_unsafe _ = false

own_checkpoint : RuntimeSnapshot → Bool
own_checkpoint snapshot =
    snapshot.checkpoint.decision_task_id == snapshot.decision_task_id
    && snapshot.checkpoint.agent_run_id == snapshot.agent_run_id

check_snapshot : Option RuntimeSnapshot → Option RuntimeSnapshot
unfolding own_checkpoint
check_snapshot none = none
check_snapshot (some snapshot) = if own_checkpoint snapshot then some snapshot else none

-- The receipt is of another run, or of another checkpoint than the snapshot's.
unfoldable pub is_foreign : RuntimeSnapshot → Option EffectReceipt → Bool
is_foreign snapshot none = false
is_foreign snapshot (some receipt) =
    not (receipt.decision_task_id == snapshot.decision_task_id)
    || (not (receipt.agent_run_id == snapshot.agent_run_id)
        || not (receipt.checkpoint_id == snapshot.checkpoint.checkpoint_id))

unfoldable pub is_unsafe_receipt : Option EffectReceipt → Bool
is_unsafe_receipt none = false
is_unsafe_receipt (some receipt) = is_unsafe receipt.state

abbrev pub identity_of : RuntimeSnapshot → RecoveryIdentity
identity_of snapshot = record {
  decision_task_id = snapshot.decision_task_id;
  agent_run_id = snapshot.agent_run_id;
  snapshot_id = snapshot.snapshot_id;
}

abbrev build_permission :
    RecoveryIdentity → RecoveryDecision → RecoveryReason → RuntimeRecoveryPermission
build_permission identity decision reason = record {
  identity = identity;
  decision = decision;
  reason = reason;
}

-- The guards after the snapshot is read, in their order.
unfoldable pub permit : RuntimeSnapshot → List (Option EffectReceipt) → RuntimeRecoveryPermission
unfolding is_foreign is_unsafe_receipt
permit snapshot receipts =
    let build = build_permission (identity_of snapshot) in
    if any is_none receipts || any (is_foreign snapshot) receipts
    then build resume_denied recovery_facts_invalid
    else if not (is_paused snapshot.task_state)
    then build resume_denied task_not_paused
    else if not snapshot.resumable
    then build resume_denied snapshot_not_resumable
    else if any is_unsafe_receipt receipts
    then build manual_verification_required effect_status_unsafe
    else build resume_allowed safe_to_resume

permit_decoded :
    Option RuntimeSnapshot
    → RecoveryIdentity
    → List (Option EffectReceipt)
    → RuntimeRecoveryPermission
unfolding permit
permit_decoded none identity receipts =
    build_permission identity resume_denied recovery_facts_invalid
permit_decoded (some snapshot) identity receipts = permit snapshot receipts

module _ {Input : Type 0} (inputs : RecoveryInputs Input) where
  open inputs use {parse_snapshot, parse_receipt, identity_from_unknown}

  -- `decodeRuntimeSnapshotV1`: what is read must be of the checkpoint's run.
  unfoldable pub decode_runtime_snapshot : Input → Option RuntimeSnapshot
  unfolding check_snapshot
  decode_runtime_snapshot input = check_snapshot (parse_snapshot input)

  unfoldable pub evaluate_runtime_recovery_permission :
      Input → List Input → RuntimeRecoveryPermission
  unfolding permit_decoded
  evaluate_runtime_recovery_permission snapshot receipts =
      permit_decoded (decode_runtime_snapshot snapshot) (identity_from_unknown snapshot)
        (map parse_receipt receipts)
