-- ===== src/Contract/Result/Invariants.antt =====
-- packages/contracts/src/decision/v1/invariants.ts: `checkDecisionTaskResultInvariants`; index.ts:
-- `getDecisionTaskResultHttpStatusV1` and the ends of the two functions that decode a result.
pub mod Accepted
pub mod Finalized
use choice_mind.Prelude.{
  ℕ, String, Bool, true, false, not, ◌&&◌, ◌||◌, List, [], ◌∷◌, ◌++◌, if◌then◌else◌, ◌==◌, eqb, ltb,
  length,
}
use choice_mind.Contract.Types.{
  ErrorCode, contract_version_unsupported, decision_execution_status_unknown, ContractIssue, name,
  DecisionRevision, DecisionBundle, SuccessfulResult, FailedResult, ChoiceMindError,
  DecisionTaskResult, successful, failed, rejected,
}
use choice_mind.Contract.Issues.{issue_if, decision_path}
use choice_mind.Contract.Statuses.{is_buy_if_price, is_buy_now}
use choice_mind.Contract.Basis.Graph.{evaluate_decision_basis_with_graph}
use choice_mind.Contract.Basis.Checks.{check_decision_basis}
use choice_mind.Contract.Result.RunEvents.{
  run_event_issues, success_event_issues, failure_event_issues,
}
use choice_mind.Contract.Result.Semantics.{semantics_issues, is_runtime_failure}
use choice_mind.Contract.Result.Decisions.{
  status_issues, reference_issues, unconfirmed_budget_issues, need_more_info_issues,
  buy_if_price_gap_issues,
}
use choice_mind.Contract.Result.Conditions.{no_match_issues, all_condition_issues, next_step_issues}

unfoldable pub buy_issues : DecisionRevision → List ContractIssue
buy_issues decision =
    issue_if (is_buy_if_price decision.status && eqb (length decision.conditions) 0)
      (decision_path "conditions") "BUY_IF_PRICE 必须包含至少一个可核验条件"
    ++ issue_if (is_buy_now decision.status && ltb 0 (length decision.critical_gaps))
        (decision_path "criticalGaps") "存在 Critical Gap 时禁止 BUY_NOW"

-- The checks of a successful result, in their order.
unfoldable pub successful_issues : SuccessfulResult → List ContractIssue
successful_issues result =
    let status = result.task_status in
    let bundle = result.bundle in
    let decision = bundle.decision in
    run_event_issues status.decision_task_id status.agent_run_id status.latest_event_sequence
      status.updated_at result.run_events
    ++ (success_event_issues result.run_events
        ++ (status_issues decision.status
            ++ (reference_issues status bundle
                ++ (unconfirmed_budget_issues bundle.requirement_revision decision
                    ++ (need_more_info_issues decision
                        ++ (no_match_issues decision
                            ++ (all_condition_issues bundle
                                ++ (buy_if_price_gap_issues decision
                                    ++ (next_step_issues decision
                                        ++ (buy_issues decision
                                            ++ check_decision_basis status.decision_task_id
                                                bundle))))))))))

unfoldable pub failed_issues : FailedResult → List ContractIssue
failed_issues result =
    let status = result.task_status in
    run_event_issues status.decision_task_id status.agent_run_id status.latest_event_sequence
      status.updated_at result.run_events
    ++ (semantics_issues result.error
        ++ (issue_if (not (is_runtime_failure result.error.code)) (name "error" ∷ name "code" ∷ [])
              "已创建任务的失败结果必须使用 Runtime 失败错误码"
            ++ (issue_if (not (status.error_id == result.error.error_id))
                  (name "taskStatus" ∷ name "errorId" ∷ []) "Task Status 必须指向结果中的 Error"
                ++ failure_event_issues result.run_events)))

unfoldable pub rejected_issues : ChoiceMindError → List ContractIssue
rejected_issues error =
    semantics_issues error
    ++ issue_if (is_runtime_failure error.code) (name "error" ∷ name "code" ∷ [])
        "AGENT_RUNTIME_FAILED 必须属于已创建任务的失败结果"

unfoldable pub check_decision_task_result_invariants : DecisionTaskResult → List ContractIssue
unfolding successful_issues failed_issues rejected_issues
check_decision_task_result_invariants (successful result) = successful_issues result
check_decision_task_result_invariants (failed result) = failed_issues result
check_decision_task_result_invariants (rejected error) = rejected_issues error

-- What decoding answers: the value, or the issues. The version scan and the schema come before, and their
-- refusals do not reach the checks modelled here.
pub data Decoded (T : Type 0) : Type 0 where
  decoded : T → Decoded T
  invalid : List ContractIssue → Decoded T

unfoldable pub decode_checked : {T : Type 0} → T → List ContractIssue → Decoded T
decode_checked value [] = decoded value
decode_checked value (i ∷ is) = invalid (i ∷ is)

-- `decodeDecisionTaskResultV1`, after the schema.
unfoldable pub decode_decision_task_result : DecisionTaskResult → Decoded DecisionTaskResult
unfolding decode_checked
decode_decision_task_result value =
    decode_checked value (check_decision_task_result_invariants value)

finalize_evaluated : SuccessfulResult → List ContractIssue → Decoded SuccessfulResult
finalize_evaluated value [] =
    decode_checked value (check_decision_task_result_invariants (successful value))
finalize_evaluated value (i ∷ is) = invalid (i ∷ is)

-- `finalizeSuccessfulDecisionTaskResultV1`, after the schema: the draft gets the derived assessments.
-- A draft has none of its own, and those that the argument has are not read.
unfoldable pub finalize_successful_decision_task_result :
    SuccessfulResult → Decoded SuccessfulResult
unfolding finalize_evaluated decode_checked
finalize_successful_decision_task_result draft =
    let evaluation =
      evaluate_decision_basis_with_graph draft.task_status.decision_task_id draft.bundle in
    finalize_evaluated
      (record draft {
        bundle = record (draft.bundle) { claim_assessments = evaluation.claim_assessments };
      })
      evaluation.issues

abbrev status_of_code : ErrorCode → ℕ
status_of_code contract_version_unsupported = 422
status_of_code decision_execution_status_unknown = 503
status_of_code _ = 400

-- `getDecisionTaskResultHttpStatusV1`
unfoldable pub http_status : DecisionTaskResult → ℕ
http_status (successful result) = 200
http_status (failed result) = 502
http_status (rejected error) = status_of_code error.code
