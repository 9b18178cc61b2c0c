-- ===== src/Contract/Result/Semantics/Rejections.antt =====
-- Which errors an accepted result can carry.
use choice_mind.Prelude.{◌≡◌, sym, ◌∙◌, eq_iff, ◌≢◌, ◌↔◌, true, false, [], arith}
use choice_mind.Contract.Types.{
  ErrorCode, agent_runtime_failed, ErrorCategory, RetryMode, new_execution_allowed, ChoiceMindError,
  DecisionTaskResult, rejected, failed, FailedResult,
}
use choice_mind.Contract.Issues.{issue_if-nil, issue_if-not-nil, nil-parts}
use choice_mind.Contract.Result.Semantics.{
  category_of, retry_mode_of, same_category, same_retry_mode, semantics_issues, is_runtime_failure,
}
use choice_mind.Contract.Result.Invariants.{
  rejected_issues, failed_issues, check_decision_task_result_invariants,
}

same_category-eq : (a b : ErrorCategory) → same_category a b ≡ true → a ≡ b
same_category-eq a b h = ground arith

same_retry_mode-eq : (a b : RetryMode) → same_retry_mode a b ≡ true → a ≡ b
same_retry_mode-eq a b h = ground arith

semantics_issues-nil :
    (error : ChoiceMindError)
    → semantics_issues error ≡ []
    → (error.category ≡ category_of error.code) × (error.retry_mode ≡ retry_mode_of error.code)
unfolding semantics_issues
semantics_issues-nil error h =
    let (a, b) = nil-parts _ _ h in
    (
      same_category-eq _ _ (issue_if-not-nil _ _ _ a),
      same_retry_mode-eq _ _ (issue_if-not-nil _ _ _ b),
    )

-- A new execution may be tried, after an accepted error, exactly if the runtime failed.
retry_mode_of-new :
    (code : ErrorCode)
    → (retry_mode_of code ≡ new_execution_allowed) ↔ (code ≡ agent_runtime_failed)
unfolding retry_mode_of
retry_mode_of-new code = ground arith

is_runtime_failure-eq :
    (code : ErrorCode) → is_runtime_failure code ≡ true → code ≡ agent_runtime_failed
is_runtime_failure-eq code h = ground arith

not_runtime : (code : ErrorCode) → is_runtime_failure code ≡ false → code ≢ agent_runtime_failed
not_runtime code h e = ground arith

-- The result passes the checks that `decode` makes of a result.
abbrev pub IsAccepted : DecisionTaskResult → Type 0
IsAccepted result = check_decision_task_result_invariants result ≡ []

-- An accepted failure of a created task has the code of a runtime failure, allows a new execution and is
-- named by the task's status. An accepted rejection never allows a new execution.
pub failure_retry :
    (failure : FailedResult) (rejection : ChoiceMindError)
    → IsAccepted (failed failure)
    → IsAccepted (rejected rejection)
    → (failure.error.code ≡ agent_runtime_failed)
      × (failure.error.retry_mode ≡ new_execution_allowed)
      × (failure.task_status.error_id ≡ failure.error.error_id)
      × (rejection.retry_mode ≢ new_execution_allowed)
unfolding check_decision_task_result_invariants failed_issues rejected_issues
failure_retry failure rejection h k =
    let (events, t₁) = nil-parts _ _ h in
    let (meaning, t₂) = nil-parts _ _ t₁ in
    let (code, t₃) = nil-parts _ _ t₂ in
    let (id, last) = nil-parts _ _ t₃ in
    let (meaning', created) = nil-parts _ _ k in
    let is_runtime = is_runtime_failure-eq _ (issue_if-not-nil _ _ _ code) in
    let retry = (semantics_issues-nil failure.error meaning).1 in
    let retry' = (semantics_issues-nil rejection meaning').1 in
    let other = issue_if-nil (is_runtime_failure rejection.code) _ _ created in
    (
      is_runtime,
      retry ∙ (retry_mode_of-new failure.error.code).1 is_runtime,
      (eq_iff _ _).0 (issue_if-not-nil _ _ _ id),
      λ e. not_runtime rejection.code other ((retry_mode_of-new rejection.code).0 (sym retry' ∙ e)),
    )
