-- ===== src/Security/Egress.antt =====
-- packages/security/src/index.ts: `createEgressGuard`. The outside is a parameter: the letters
-- case of `toUpperCase`, the origin that `new URL` reads (none where it throws), and whether
-- `appendRecord` accepts a record. A call returns its outcome and its effects in their order.
pub mod Laws
use choice_mind.Prelude.{
  String, ◌≡◌, refl, Bool, true, false, not, ◌&&◌, List, [], ◌∷◌, Option, none, some, if◌then◌else◌,
  ◌==◌,
}
use choice_mind.Security.RiskPolicy.{
  Operation, read_public_source, read_private_source, invoke_provider, write_external,
  PolicyDecision, allow, deny, require_confirmation, Confirmation, PolicyInput,
  evaluate_risk_policy, policy_version,
}

pub record EgressRecord : Type 0 where
  pub egress_id : String
  pub user_id : String
  pub operation_id : String
  pub correlation_id : String
  pub destination_origin : String
  pub method : String
  pub policy_version : String
  pub state : String
  pub occurred_at : String

pub record EgressInput : Type 0 where
  pub user_id : String
  pub operation_id : String
  pub operation : Operation
  pub confirmation : Option Confirmation
  pub correlation_id : String
  pub destination_url : String
  pub method : String

-- What `nextId` and `now` answer in this call.
pub record EgressStamp : Type 0 where
  pub egress_id : String
  pub occurred_at : String

pub record EgressEnvironment : Type 0 where
  pub to_upper_case : String → String
  pub url_origin : String → Option String
  pub append_accepts : EgressRecord → Bool

pub data EgressEffect : Type 0 where
  appended : EgressRecord → EgressEffect
  performed : EgressEffect

pub data EgressFailure : Type 0 where
  invalid_url append_rejected perform_rejected : EgressFailure

pub data EgressOutcome (T : Type 0) : Type 0 where
  completed : T → EgressOutcome T
  refused : PolicyDecision → EgressOutcome T
  failed : EgressFailure → EgressOutcome T

abbrev is_invoke_provider : Operation → Bool
is_invoke_provider invoke_provider = true
is_invoke_provider _ = false

-- A method that may write makes any operation but a provider call an external write.
unfoldable pub effective_operation : String → Operation → Operation
effective_operation method operation =
    if not (method == "GET") && not (method == "HEAD") && not (is_invoke_provider operation)
    then write_external
    else operation

module _ (environment : EgressEnvironment) where
  open environment use {to_upper_case}

  unfoldable pub egress_record : EgressInput → EgressStamp → String → EgressRecord
  egress_record input stamp origin = record {
    egress_id = stamp.egress_id;
    user_id = input.user_id;
    operation_id = input.operation_id;
    correlation_id = input.correlation_id;
    destination_origin = origin;
    method = to_upper_case input.method;
    policy_version = policy_version;
    state = "STARTED";
    occurred_at = stamp.occurred_at;
  }

  abbrev pub egress_policy : EgressInput → PolicyDecision
  egress_policy input =
      let answer = evaluate_risk_policy (record {
        operation = effective_operation (to_upper_case input.method) input.operation;
        operation_id = input.operation_id;
        user_id = input.user_id;
        confirmation = input.confirmation;
      }) in
      answer.decision

module _ {T : Type 0} (environment : EgressEnvironment) where
  open environment use {url_origin, append_accepts}

  -- `perform` is its result, none where it rejects.
  run_performed : Option T → EgressOutcome T
  run_performed none = failed perform_rejected
  run_performed (some value) = completed value

  record_and_perform : EgressRecord → Option T → EgressOutcome T × List EgressEffect
  record_and_perform entry perform =
      if append_accepts entry
      then (run_performed perform, appended entry ∷ performed ∷ [])
      else (failed append_rejected, [])

  run_allowed :
      EgressInput → EgressStamp → Option T → Option String → EgressOutcome T × List EgressEffect
  run_allowed input stamp perform none = (failed invalid_url, [])
  run_allowed input stamp perform (some origin) =
      record_and_perform (egress_record environment input stamp origin) perform

  run_decided :
      PolicyDecision → EgressInput → EgressStamp → Option T → EgressOutcome T × List EgressEffect
  run_decided allow input stamp perform =
      run_allowed input stamp perform (url_origin input.destination_url)
  run_decided deny input stamp perform = (refused deny, [])
  run_decided require_confirmation input stamp perform = (refused require_confirmation, [])

  unfoldable pub execute :
      EgressInput → EgressStamp → Option T → EgressOutcome T × List EgressEffect
  unfolding run_performed record_and_perform egress_record run_allowed run_decided
  execute input stamp perform = run_decided (egress_policy environment input) input stamp perform
