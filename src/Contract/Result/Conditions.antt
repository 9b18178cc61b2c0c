-- ===== src/Contract/Result/Conditions.antt =====
-- packages/contracts/src/decision/v1/invariants.ts: the conditions, next steps and risks of a decision.
pub mod Priced
use choice_mind.Prelude.{
  ℕ, String, Bool, true, false, not, ◌&&◌, List, [], ◌∷◌, ◌++◌, map, Option, none, some,
  if◌then◌else◌, ◌==◌, eqb, ltb, same_text?, length, any, flat_map_from,
}
use choice_mind.Js.Equality.{text_equality}
use choice_mind.Js.Sets.{has, set_of}
use choice_mind.Contract.Types.{
  Candidate, RequirementRevision, Budget, ConditionKind, max_price, official_warranty,
  DecisionCondition, DecisionRisk, DecisionNextStep, NextStepAction, DecisionRevision, PathPart,
  name, index, ContractIssue, DecisionBundle,
}
use choice_mind.Contract.Issues.{issue_if, decision_path}
use choice_mind.Contract.Statuses.{is_no_match, is_none}
use choice_mind.Contract.Basis.Constraints.{hard_budget}

abbrev pub verifies_condition : String → DecisionNextStep → Bool
verifies_condition id step = elim step.action [
  | NextStepAction.verify_condition condition_id ↦ condition_id == id
  | _ ↦ false
]

abbrev pub verifies_risk : String → DecisionNextStep → Bool
verifies_risk id step = elim step.action [
  | NextStepAction.verify_risk risk_id ↦ risk_id == id
  | _ ↦ false
]

unfoldable pub no_match_issues : DecisionRevision → List ContractIssue
no_match_issues decision =
    issue_if (is_no_match decision.status && not (is_none decision.selected_candidate_id))
      (decision_path "selectedCandidateId") "NO_MATCH 不得选择 Candidate"

-- A MAX_PRICE condition above the confirmed hard budget.
unfoldable pub exceeds : ConditionKind → Option Budget → Bool
exceeds official_warranty budget = false
exceeds (max_price amount_minor currency) none = false
exceeds (max_price amount_minor currency) (some budget) = ltb budget.max_amount_minor amount_minor

abbrev item_path : String → ℕ → String → List PathPart
item_path collection i field =
    name "bundle" ∷ name "decision" ∷ name collection ∷ index i ∷ name field ∷ []

module _ (bundle : DecisionBundle) where
  condition_issues : ℕ → DecisionCondition → List ContractIssue
  unfolding exceeds
  condition_issues i condition =
      issue_if
        (not (has (set_of (map (λ c. c.candidate_id) bundle.candidates)) condition.candidate_id))
        (item_path "conditions" i "candidateId") "Decision Condition 必须关联存在的 Candidate"
      ++ (issue_if (not (same_text? bundle.decision.selected_candidate_id condition.candidate_id))
            (item_path "conditions" i "candidateId") "Decision Condition 必须关联被选 Candidate"
          ++ (issue_if (exceeds condition.condition_type (hard_budget bundle.requirement_revision))
                (item_path "conditions" i "amountMinor") "MAX_PRICE 条件不得超过已确认硬预算"
              ++ issue_if
                  (not (any (verifies_condition condition.condition_id) bundle.decision.next_steps))
                  (item_path "conditions" i "conditionId")
                  "每个 Decision Condition 必须有对应的 VERIFY_CONDITION next step"))

  unfoldable pub all_condition_issues : List ContractIssue
  unfolding condition_issues
  all_condition_issues = flat_map_from condition_issues 0 bundle.decision.conditions

-- What a next step points at exists.
step_issues : DecisionRevision → ℕ → DecisionNextStep → List ContractIssue
step_issues decision i step = elim step.action [
  | NextStepAction.provide_requirement key ↦ []
  | NextStepAction.verify_condition id ↦
      issue_if (not (any (λ c. c.condition_id == id) decision.conditions))
        (item_path "nextSteps" i "conditionId") "VERIFY_CONDITION 必须引用存在的 Decision Condition"
  | NextStepAction.verify_risk id ↦
      issue_if (not (any (λ r. r.risk_id == id) decision.risks)) (item_path "nextSteps" i "riskId")
        "VERIFY_RISK 必须引用存在的 Decision Risk"
]

risk_step_issues : DecisionRevision → ℕ → DecisionRisk → List ContractIssue
risk_step_issues decision i risk =
    issue_if (not (any (verifies_risk risk.risk_id) decision.next_steps))
      (item_path "risks" i "riskId") "每个 Decision Risk 必须有对应的 VERIFY_RISK next step"

unfoldable pub next_step_issues : DecisionRevision → List ContractIssue
unfolding step_issues risk_step_issues
next_step_issues decision =
    flat_map_from (step_issues decision) 0 decision.next_steps
    ++ flat_map_from (risk_step_issues decision) 0 decision.risks
