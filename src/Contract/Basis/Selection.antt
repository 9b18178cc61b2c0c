-- ===== src/Contract/Basis/Selection.antt =====
-- packages/contracts/src/decision/v1/decision-basis.ts: `validateSelectedCandidateBasis`.
pub mod Satisfied
use choice_mind.Prelude.{
  ℕ, suc, String, Bool, true, false, not, ◌&&◌, ◌||◌, List, [], ◌∷◌, ◌++◌, map, Option, none, some,
  if◌then◌else◌, ◌==◌, eqb, same_text?, length, any, all, flat_map_from,
}
use choice_mind.Js.Equality.{text_equality}
use choice_mind.Js.Sets.{has, add, set_of}
use choice_mind.Js.Maps.{get, or_empty}
use choice_mind.Contract.Types.{
  RequirementRevision, RequirementConstraint, Budget, Candidate, Claim, Evidence, ClaimEvidenceLink,
  EvidenceState, supported, refuted, conflicted, insufficient, ClaimAssessment, PathPart, name,
  index, ContractIssue, DecisionBundle, DecisionRevision, CandidateDisposition, DecisionRisk,
  DecisionStatus, need_more_info,
}
use choice_mind.Contract.Issues.{issue, issue_if, collect_unique_ids, decision_path}
use choice_mind.Contract.Statuses.{is_need_more_info, is_none}
use choice_mind.Contract.Basis.Graph.{
  EvidenceGraph, InternalEvaluation, evaluate_decision_basis_with_graph,
}
use choice_mind.Contract.Basis.Constraints.{
  ConstraintStatus, satisfied, violated, indeterminate, ConstraintAssessment, is_supported,
  assess_candidate_budget_constraint, assess_candidate_constraint, assess_disposition_constraint,
  hard_budget, budget_key,
}

abbrev pub is_satisfied : ConstraintStatus → Bool
is_satisfied satisfied = true
is_satisfied _ = false

-- The hard budget of the selected candidate is satisfied, if there is one.
budget_satisfied : Candidate → Option Budget → EvidenceGraph → Bool
budget_satisfied candidate none graph = true
budget_satisfied candidate (some budget) graph =
    is_satisfied (assess_candidate_budget_constraint candidate budget graph).status

unfoldable pub validate_selected_candidate_basis :
    Option Candidate → RequirementRevision → EvidenceGraph → List ContractIssue
unfolding budget_satisfied
validate_selected_candidate_basis none requirement graph = []
validate_selected_candidate_basis (some candidate) requirement graph =
    issue_if (not (budget_satisfied candidate (hard_budget requirement) graph))
      (decision_path "selectedCandidateId") "被选 Candidate 的价格事实必须满足已确认的硬预算"
    ++ issue_if
        (not (
          all
            (λ c. is_satisfied (assess_candidate_constraint candidate.candidate_id c graph).status)
            requirement.must_haves))
        (decision_path "selectedCandidateId") "被选 Candidate 必须满足每项 must-have"
