-- ===== src/Contract/Result/Semantics.antt =====
-- packages/contracts/src/decision/v1/invariants.ts: the fixed meaning of each error code; errors.ts: the
-- results that reject a request.
pub mod Rejections
use choice_mind.Prelude.{String, Bool, true, false, not, List, [], ◌∷◌, ◌++◌, if◌then◌else◌}
use choice_mind.Contract.Types.{
  ErrorCode, contract_invalid, contract_version_unsupported, agent_runtime_failed,
  decision_execution_status_unknown, decision_task_not_found, idempotency_conflict,
  persistence_unavailable, ErrorCategory, validation, version, runtime, transport, resource,
  storage, RetryMode, none_allowed, same_execution_only, new_execution_allowed, ChoiceMindError,
  ContractIssue, name, DecisionTaskResult, rejected,
}
use choice_mind.Contract.Issues.{issue, issue_if}

-- `errorSemanticsByCode`
unfoldable pub category_of : ErrorCode → ErrorCategory
category_of contract_invalid = validation
category_of contract_version_unsupported = version
category_of agent_runtime_failed = runtime
category_of decision_execution_status_unknown = transport
category_of decision_task_not_found = resource
category_of idempotency_conflict = validation
category_of persistence_unavailable = storage

unfoldable pub retry_mode_of : ErrorCode → RetryMode
retry_mode_of contract_invalid = none_allowed
retry_mode_of contract_version_unsupported = none_allowed
retry_mode_of agent_runtime_failed = new_execution_allowed
retry_mode_of decision_execution_status_unknown = same_execution_only
retry_mode_of decision_task_not_found = none_allowed
retry_mode_of idempotency_conflict = none_allowed
retry_mode_of persistence_unavailable = same_execution_only

abbrev pub same_category : ErrorCategory → ErrorCategory → Bool
same_category validation validation = true
same_category version version = true
same_category runtime runtime = true
same_category transport transport = true
same_category resource resource = true
same_category storage storage = true
same_category _ _ = false

abbrev pub same_retry_mode : RetryMode → RetryMode → Bool
same_retry_mode none_allowed none_allowed = true
same_retry_mode same_execution_only same_execution_only = true
same_retry_mode new_execution_allowed new_execution_allowed = true
same_retry_mode _ _ = false

abbrev pub is_runtime_failure : ErrorCode → Bool
is_runtime_failure agent_runtime_failed = true
is_runtime_failure _ = false

unfoldable pub semantics_issues : ChoiceMindError → List ContractIssue
semantics_issues error =
    issue_if (not (same_category error.category (category_of error.code)))
      (name "error" ∷ name "category" ∷ []) "错误分类必须与错误码的固定语义一致"
    ++ issue_if (not (same_retry_mode error.retry_mode (retry_mode_of error.code)))
        (name "error" ∷ name "retryMode" ∷ []) "重试模式必须与错误码的固定语义一致"

abbrev pub is_version_error : ErrorCode → Bool
is_version_error contract_version_unsupported = true
is_version_error _ = false

-- The type of the source allows the codes CONTRACT_INVALID and CONTRACT_VERSION_UNSUPPORTED.
unfoldable pub create_contract_rejected :
    (code : ErrorCode) (error_id : String) (issues : List ContractIssue) (occurred_at : String)
    → DecisionTaskResult
create_contract_rejected code error_id issues occurred_at = rejected (record {
  error_id = error_id;
  code = code;
  category = if is_version_error code then version else validation;
  message = if is_version_error code then "合同版本不受支持" else "请求不符合合同要求";
  retry_mode = none_allowed;
  issues = issues;
  occurred_at = occurred_at;
})

unfoldable pub create_unknown_decision_execution :
    (error_id occurred_at : String) → DecisionTaskResult
create_unknown_decision_execution error_id occurred_at = rejected (record {
  error_id = error_id;
  code = decision_execution_status_unknown;
  category = transport;
  message = "本次执行状态暂时无法确认";
  retry_mode = same_execution_only;
  issues = [];
  occurred_at = occurred_at;
})

unfoldable pub create_decision_task_not_found : (error_id occurred_at : String) → DecisionTaskResult
create_decision_task_not_found error_id occurred_at = rejected (record {
  error_id = error_id;
  code = decision_task_not_found;
  category = resource;
  message = "决策任务不存在";
  retry_mode = none_allowed;
  issues = [];
  occurred_at = occurred_at;
})

unfoldable pub create_idempotency_conflict : (error_id occurred_at : String) → DecisionTaskResult
create_idempotency_conflict error_id occurred_at = rejected (record {
  error_id = error_id;
  code = idempotency_conflict;
  category = validation;
  message = "执行标识与原命令不一致";
  retry_mode = none_allowed;
  issues = issue (name "executionRequestId" ∷ []) "同一执行标识不能绑定不同命令" ∷ [];
  occurred_at = occurred_at;
})

unfoldable pub create_persistence_unavailable : (error_id occurred_at : String) → DecisionTaskResult
create_persistence_unavailable error_id occurred_at = rejected (record {
  error_id = error_id;
  code = persistence_unavailable;
  category = storage;
  message = "持久任务存储暂时不可用";
  retry_mode = same_execution_only;
  issues = [];
  occurred_at = occurred_at;
})
