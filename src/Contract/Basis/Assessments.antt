-- ===== src/Contract/Basis/Assessments.antt =====
-- packages/contracts/src/decision/v1/decision-basis.ts: `validateCanonicalAssessments`.
pub mod Canonical
use choice_mind.Prelude.{
  ℕ, suc, String, Bool, true, false, not, ◌&&◌, ◌||◌, List, [], ◌∷◌, ◌++◌, map, Option, none, some,
  if◌then◌else◌, ◌==◌, eqb, same_text?, length, any, all, flat_map_from,
}
use choice_mind.Js.Equality.{text_equality}
use choice_mind.Js.Sets.{has, add, set_of}
use choice_mind.Js.Maps.{get, or_empty}
use choice_mind.Contract.Types.{
  RequirementRevision, RequirementConstraint, Budget, Candidate, Claim, Evidence, ClaimEvidenceLink,
  EvidenceState, supported, refuted, conflicted, insufficient, ClaimAssessment, PathPart, name,
  index, ContractIssue, DecisionBundle, DecisionRevision, CandidateDisposition, DecisionRisk,
  DecisionStatus, need_more_info,
}
use choice_mind.Contract.Issues.{issue, issue_if, collect_unique_ids, decision_path}
use choice_mind.Contract.Statuses.{is_need_more_info, is_none}
use choice_mind.Contract.Basis.Graph.{
  EvidenceGraph, InternalEvaluation, evaluate_decision_basis_with_graph,
}
use choice_mind.Contract.Basis.Constraints.{
  ConstraintStatus, satisfied, violated, indeterminate, ConstraintAssessment, is_supported,
  assess_candidate_budget_constraint, assess_candidate_constraint, assess_disposition_constraint,
  hard_budget, budget_key,
}

abbrev pub same_state : EvidenceState → EvidenceState → Bool
same_state supported supported = true
same_state refuted refuted = true
same_state conflicted conflicted = true
same_state insufficient insufficient = true
same_state _ _ = false

unfoldable pub are_same_strings : List String → List String → Bool
are_same_strings [] [] = true
are_same_strings [] (y ∷ ys) = false
are_same_strings (x ∷ xs) [] = false
are_same_strings (x ∷ xs) (y ∷ ys) = x == y && are_same_strings xs ys

-- The header fields are single literals, and so the same.
unfoldable pub is_same_assessment : ClaimAssessment → ClaimAssessment → Bool
unfolding are_same_strings
is_same_assessment left right =
    left.claim_id == right.claim_id
    && (same_state left.evidence_state right.evidence_state
        && (are_same_strings left.supporting_evidence_ids right.supporting_evidence_ids
            && are_same_strings left.refuting_evidence_ids right.refuting_evidence_ids))

-- The loop over the entries that both lists have.
compare_assessments : ℕ → List ClaimAssessment → List ClaimAssessment → List ContractIssue
unfolding is_same_assessment
compare_assessments i [] expected = []
compare_assessments i (a ∷ actual) [] = []
compare_assessments i (a ∷ actual) (e ∷ expected) =
    issue_if (not (is_same_assessment a e)) (name "bundle" ∷ name "claimAssessments" ∷ index i ∷ [])
      "Claim Assessment 必须等于 Decision Basis 的规范化派生结果"
    ++ compare_assessments (suc i) actual expected

unfoldable pub validate_canonical_assessments :
    List ClaimAssessment → List ClaimAssessment → List ContractIssue
unfolding compare_assessments
validate_canonical_assessments actual expected =
    collect_unique_ids (λ a. a.claim_id) (name "bundle" ∷ name "claimAssessments" ∷ []) "claimId"
      "Claim Assessment" actual
    ++ (issue_if (not (eqb (length actual) (length expected)))
          (name "bundle" ∷ name "claimAssessments" ∷ []) "每个 Claim 必须恰有一份规范化 Claim Assessment"
        ++ compare_assessments 0 actual expected)
