-- ===== src/Contract/Tests/Recovery.antt =====
-- packages/contracts/src/decision/v1/index.ts: the recovery of a sample run.
use choice_mind.Prelude.{String, ◌≡◌, refl, ◌↔◌, true, [], ◌∷◌, map, some, Any}
use choice_mind.Contract.Types.{paused_permission}
use choice_mind.Contract.Recovery.{
  RuntimeSnapshot, EffectReceipt, started, resume_allowed, manual_verification_required,
  RecoveryInputs, permit, decode_runtime_snapshot, evaluate_runtime_recovery_permission,
}
use choice_mind.Contract.Recovery.Permission.{
  IsUnsafe, MayResume, evaluate_runtime_recovery_permission_iff,
}
use choice_mind.Contract.Tests.{at}

abbrev paused : RuntimeSnapshot
paused = record {
  snapshot_id = "s1";
  decision_task_id = "t1";
  agent_run_id = "a1";
  task_state = paused_permission;
  resumable = true;
  raw_snapshot = record { digest = "d"; object_key = "o" };
  checkpoint = record {
    checkpoint_id = "p1";
    decision_task_id = "t1";
    agent_run_id = "a1";
    sequence = 1;
    persisted_at = at 100;
  };
  captured_at = at 100;
}

abbrev begun : EffectReceipt
begun = record {
  effect_receipt_id = "f1";
  decision_task_id = "t1";
  agent_run_id = "a1";
  checkpoint_id = "p1";
  effect_id = "x1";
  recorded_at = at 100;
  state = started;
}

-- Any input reads as the snapshot, and as a receipt of the begun effect.
abbrev inputs : RecoveryInputs String
inputs = record {
  parse_snapshot = λ text. some paused;
  parse_receipt = λ text. some begun;
  identity_from_unknown =
      λ text. record { decision_task_id = text; agent_run_id = text; snapshot_id = text };
}

-- A receipt of a begun effect asks for a person.
begun_needs_person :
    (evaluate_runtime_recovery_permission inputs "s" ("r" ∷ [])).decision
    ≡ manual_verification_required
unfolding evaluate_runtime_recovery_permission decode_runtime_snapshot permit
begun_needs_person = refl

evaluate_runtime_recovery_permission_iff_example :
    let decision = (evaluate_runtime_recovery_permission inputs "s" ("r" ∷ [])).decision in
    ((decision ≡ resume_allowed)
      ↔ (MayResume inputs "s" ("r" ∷ []) × (¬ Any IsUnsafe (map inputs.parse_receipt ("r" ∷ [])))))
    × ((decision ≡ manual_verification_required)
        ↔ (MayResume inputs "s" ("r" ∷ []) × Any IsUnsafe (map inputs.parse_receipt ("r" ∷ []))))
evaluate_runtime_recovery_permission_iff_example =
    evaluate_runtime_recovery_permission_iff inputs "s" ("r" ∷ [])
