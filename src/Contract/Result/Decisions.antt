-- ===== src/Contract/Result/Decisions.antt =====
-- packages/contracts/src/decision/v1/invariants.ts: the decision of a successful result against its
-- status, its requirement and its gaps.
pub mod Open
use choice_mind.Prelude.{
  ℕ, String, Bool, true, false, not, ◌&&◌, ◌||◌, List, [], ◌∷◌, ◌++◌, Option, none, some,
  if◌then◌else◌, ◌==◌, eqb, ltb, length, any, flat_map_from,
}
use choice_mind.Js.Equality.{text_equality}
use choice_mind.Js.Sets.{has}
use choice_mind.Contract.Types.{
  RequirementRevision, Budget, CriticalGap, CriticalGapResolution, DecisionNextStep, NextStepAction,
  DecisionStatus, DecisionRevision, CompletedTaskStatus, DecisionBundle, PathPart, name, index,
  ContractIssue, DecisionCondition,
}
use choice_mind.Contract.Issues.{issue, issue_if, decision_path}
use choice_mind.Contract.Statuses.{is_need_more_info, is_buy_if_price, is_none}
use choice_mind.Contract.Basis.Constraints.{budget_key}

unfoldable pub status_issues : DecisionStatus → List ContractIssue
status_issues status =
    issue_if (not (is_buy_if_price status) && not (is_need_more_info status))
      (decision_path "status") "P0-03 仅开放 BUY_IF_PRICE 和 NEED_MORE_INFO"

unfoldable pub reference_issues : CompletedTaskStatus → DecisionBundle → List ContractIssue
reference_issues status bundle =
    issue_if (not (status.decision_revision_id == bundle.decision.decision_revision_id))
      (name "taskStatus" ∷ name "decisionRevisionId" ∷ []) "Task Status 必须指向结果中的 Decision Revision"
    ++ (issue_if (not (bundle.requirement_revision.decision_task_id == status.decision_task_id))
          (name "bundle" ∷ name "requirementRevision" ∷ name "decisionTaskId" ∷ [])
          "Requirement Revision 必须属于结果中的 Decision Task"
        ++ (issue_if (not (bundle.decision.decision_task_id == status.decision_task_id))
              (decision_path "decisionTaskId") "Decision Revision 必须属于结果中的 Decision Task"
            ++ issue_if
                (not (
                  bundle.decision.requirement_revision_id
                  == bundle.requirement_revision.requirement_revision_id))
                (decision_path "requirementRevisionId") "Decision 必须引用结果中的 Requirement Revision"))

abbrev pub is_confirmed : Option Budget → Bool
is_confirmed none = false
is_confirmed (some budget) = budget.confirmed

-- `budgetNeedsConfirmation`
unfoldable pub budget_needs_confirmation : RequirementRevision → Bool
budget_needs_confirmation requirement =
    not (is_confirmed requirement.budget) || has requirement.unknowns budget_key

-- The step asks for the requirement with this key.
abbrev pub asks_for : String → DecisionNextStep → Bool
asks_for key step = elim step.action [
  | NextStepAction.provide_requirement requirement_key ↦ requirement_key == key
  | _ ↦ false
]

unfoldable pub unconfirmed_budget_issues :
    RequirementRevision → DecisionRevision → List ContractIssue
unconfirmed_budget_issues requirement decision =
    if budget_needs_confirmation requirement
    then issue_if (not (is_need_more_info decision.status)) (decision_path "status")
        "预算上限未确认时必须返回 NEED_MORE_INFO"
      ++ (issue_if (not (is_none decision.selected_candidate_id))
            (decision_path "selectedCandidateId") "预算上限未确认时不能选择 Candidate"
          ++ (issue_if (not (any (λ gap. gap.key == budget_key) decision.critical_gaps))
                (decision_path "criticalGaps") "预算上限未确认时必须保留对应 Critical Gap"
              ++ issue_if (not (any (asks_for budget_key) decision.next_steps))
                  (decision_path "nextSteps") "预算上限未确认时必须要求用户补充预算"))
    else []

abbrev gap_path : ℕ → String → List PathPart
gap_path i field =
    name "bundle"
    ∷ name "decision"
    ∷ name "criticalGaps"
    ∷ index i
    ∷ name "resolution"
    ∷ name field
    ∷ []

-- A gap of NEED_MORE_INFO is closed by a step that asks for its own requirement.
resolution_issues : List DecisionNextStep → ℕ → String → CriticalGapResolution → List ContractIssue
resolution_issues steps i key (CriticalGapResolution.verify_condition condition_id) =
    issue (gap_path i "resolutionType") "NEED_MORE_INFO Critical Gap 必须由同一 Requirement 补充步骤闭合" ∷ []
resolution_issues steps i key (CriticalGapResolution.provide_requirement requirement_key) =
    issue_if (not (requirement_key == key) || not (any (asks_for requirement_key) steps))
      (gap_path i "requirementKey") "NEED_MORE_INFO Critical Gap 必须由同一 Requirement 补充步骤闭合"

open_gap_issues : List DecisionNextStep → ℕ → CriticalGap → List ContractIssue
unfolding resolution_issues
open_gap_issues steps i gap = resolution_issues steps i gap.key gap.resolution

unfoldable pub need_more_info_issues : DecisionRevision → List ContractIssue
unfolding open_gap_issues
need_more_info_issues decision =
    issue_if (is_need_more_info decision.status && eqb (length decision.critical_gaps) 0)
      (decision_path "criticalGaps") "NEED_MORE_INFO 必须至少包含一个可回答的 Critical Gap"
    ++ (issue_if (is_need_more_info decision.status && not (is_none decision.selected_candidate_id))
          (decision_path "selectedCandidateId") "NEED_MORE_INFO 不得选择 Candidate"
        ++ (issue_if
              (is_need_more_info decision.status && ltb 0 (length decision.candidate_dispositions))
              (decision_path "candidateDispositions") "NEED_MORE_INFO 不得形成 Candidate Disposition"
            ++ (if is_need_more_info decision.status
                then flat_map_from (open_gap_issues decision.next_steps) 0 decision.critical_gaps
                else [])))

-- A gap of BUY_IF_PRICE is closed by a condition of the decision.
price_gap_issues : List DecisionCondition → ℕ → CriticalGap → List ContractIssue
price_gap_issues conditions i gap = elim gap.resolution [
  | CriticalGapResolution.verify_condition condition_id ↦
      issue_if (not (any (λ c. c.condition_id == condition_id) conditions))
        (gap_path i "conditionId") "BUY_IF_PRICE Critical Gap 必须由可核验的 Decision Condition 闭合"
  | CriticalGapResolution.provide_requirement requirement_key ↦
      issue (gap_path i "resolutionType") "BUY_IF_PRICE Critical Gap 必须由可核验的 Decision Condition 闭合"
      ∷ []
]

unfoldable pub buy_if_price_gap_issues : DecisionRevision → List ContractIssue
unfolding price_gap_issues
buy_if_price_gap_issues decision =
    if is_buy_if_price decision.status
    then flat_map_from (price_gap_issues decision.conditions) 0 decision.critical_gaps
    else []
