-- ===== src/Security/RiskPolicy.antt =====
-- packages/security/src/index.ts: `evaluateRiskPolicy`.
use choice_mind.Prelude.{String, Bool, false, ◌&&◌, Option, none, some, if◌then◌else◌, ◌==◌}

pub data Operation : Type 0 where
  read_public_source read_private_source invoke_provider write_external : Operation

pub data PolicyDecision : Type 0 where
  allow deny require_confirmation : PolicyDecision

pub record Confirmation : Type 0 where
  pub operation_id : String
  pub user_id : String

pub record PolicyInput : Type 0 where
  pub operation : Operation
  pub operation_id : String
  pub user_id : String
  pub confirmation : Option Confirmation

pub record RiskPolicyDecision : Type 0 where
  pub decision : PolicyDecision
  pub policy_version : String

abbrev pub policy_version : String
policy_version = "p0-v1"

-- The confirmation names this operation and this user.
unfoldable pub confirms : Option Confirmation → String → String → Bool
confirms none operation_id user_id = false
confirms (some c) operation_id user_id = c.operation_id == operation_id && c.user_id == user_id

unfoldable pub decide_policy : Operation → Bool → PolicyDecision
decide_policy write_external confirmed = deny
decide_policy read_public_source confirmed = allow
decide_policy read_private_source confirmed = if confirmed then allow else require_confirmation
decide_policy invoke_provider confirmed = if confirmed then allow else require_confirmation

unfoldable pub evaluate_risk_policy : PolicyInput → RiskPolicyDecision
unfolding decide_policy confirms
evaluate_risk_policy input = record {
  decision =
      decide_policy input.operation (confirms input.confirmation input.operation_id input.user_id);
  policy_version = policy_version;
}
