-- ===== src/Contract/Tests/Results.antt =====
-- packages/contracts/src/decision/v1/invariants.ts: the theorems on results, at the sample results.
use choice_mind.Prelude.{◌≡◌, ◌≢◌, refl, ◌⊎◌, true, [], ◌∷◌, Any, All}
use choice_mind.Contract.Types.{
  buy_if_price, need_more_info, runtime_failed, FailedResult, ChoiceMindError, DecisionTaskResult,
  rejected, successful, agent_runtime_failed, contract_invalid, new_execution_allowed, none_allowed,
  runtime, validation, TaskState,
}
use choice_mind.Contract.Issues.{issue_if, collect_unique_ids}
use choice_mind.Js.Sets.{add}
use choice_mind.Contract.Basis.Constraints.{budget_key}
use choice_mind.Contract.Result.RunEvents.{
  run_event_issues, success_event_issues, failure_event_issues, authoritative_index,
}
use choice_mind.Contract.Result.RunEvents.Numbering.{IsRunOf, run_event_issues-IsRunOf}
use choice_mind.Contract.Result.RunEvents.Stages.{IsSuccessRun, success_event_issues-IsSuccessRun}
use choice_mind.Contract.Result.Semantics.{semantics_issues, category_of, retry_mode_of}
use choice_mind.Contract.Result.Semantics.Rejections.{IsAccepted, failure_retry}
use choice_mind.Contract.Result.Decisions.{asks_for, budget_needs_confirmation}
use choice_mind.Contract.Result.Decisions.Open.{IsOpen}
use choice_mind.Contract.Result.Conditions.Priced.{IsSound}
use choice_mind.Contract.Result.Invariants.{
  decoded, decode_decision_task_result, check_decision_task_result_invariants, failed_issues,
  rejected_issues,
}
use choice_mind.Contract.Result.Invariants.Accepted.{accepted-decision, accepted-unconfirmed_budget}
use choice_mind.Contract.Result.Invariants.Finalized.{with_assessments, finalize-decode}
use choice_mind.Contract.Tests.{
  at, run, result, accepted, unconfirmed_result, unconfirmed_accepted, finalized,
}

accepted-decision_example :
    All (IsSound result.bundle) result.bundle.decision.conditions
    × (((buy_if_price ≡ buy_if_price) × (result.bundle.decision.conditions ≢ []))
        ⊎ ((buy_if_price ≡ need_more_info) × IsOpen result.bundle.decision))
accepted-decision_example = accepted-decision result accepted

unconfirmed : budget_needs_confirmation unconfirmed_result.bundle.requirement_revision ≡ true
unfolding budget_needs_confirmation
unconfirmed = refl

accepted-unconfirmed_budget_example :
    (need_more_info ≡ need_more_info)
    × (IsOpen unconfirmed_result.bundle.decision
        × (Any (λ gap. gap.key ≡ budget_key) unconfirmed_result.bundle.decision.critical_gaps
            × Any
                (λ step. asks_for budget_key step ≡ true)
                unconfirmed_result.bundle.decision.next_steps))
accepted-unconfirmed_budget_example =
    accepted-unconfirmed_budget unconfirmed_result unconfirmed_accepted unconfirmed

finalize-decode_example :
    (result ≡ with_assessments result)
    × (decode_decision_task_result (successful result) ≡ decoded (successful result))
finalize-decode_example = finalize-decode result result finalized

numbered : run_event_issues "t1" "a1" 2 (at 200) run ≡ []
unfolding run_event_issues collect_unique_ids issue_if add
numbered = refl

run_event_issues-IsRunOf_example : IsRunOf "t1" "a1" 2 (at 200) run
run_event_issues-IsRunOf_example = run_event_issues-IsRunOf "t1" "a1" 2 (at 200) run numbered

staged : success_event_issues run ≡ []
unfolding success_event_issues issue_if authoritative_index
staged = refl

success_event_issues-IsSuccessRun_example : IsSuccessRun run
success_event_issues-IsSuccessRun_example = success_event_issues-IsSuccessRun run staged

abbrev failure : FailedResult
failure = record {
  task_status = record {
    decision_task_id = "t1";
    agent_run_id = "a1";
    latest_event_sequence = 1;
    error_id = "x1";
    updated_at = at 200;
  };
  run_events =
      record {
        event_id = "v1";
        decision_task_id = "t1";
        agent_run_id = "a1";
        sequence = 1;
        occurred_at = at 200;
        event_type = runtime_failed;
        task_state = TaskState.failed;
        summary = "failed";
      }
      ∷ [];
  error = record {
    error_id = "x1";
    code = agent_runtime_failed;
    category = runtime;
    message = "failed";
    retry_mode = new_execution_allowed;
    issues = [];
    occurred_at = "1970-01-01T00:00:00Z";
  };
}

abbrev rejection : ChoiceMindError
rejection = record (failure.error) {
  code = contract_invalid;
  category = validation;
  retry_mode = none_allowed;
}

failure-IsAccepted : IsAccepted (DecisionTaskResult.failed failure)
unfolding check_decision_task_result_invariants failed_issues run_event_issues failure_event_issues
    collect_unique_ids issue_if add semantics_issues category_of retry_mode_of
failure-IsAccepted = refl

rejection-IsAccepted : IsAccepted (rejected rejection)
unfolding check_decision_task_result_invariants rejected_issues issue_if semantics_issues
    category_of retry_mode_of
rejection-IsAccepted = refl

failure_retry_example :
    (failure.error.code ≡ agent_runtime_failed)
    × (failure.error.retry_mode ≡ new_execution_allowed)
    × (failure.task_status.error_id ≡ failure.error.error_id)
    × (rejection.retry_mode ≢ new_execution_allowed)
failure_retry_example = failure_retry failure rejection failure-IsAccepted rejection-IsAccepted
