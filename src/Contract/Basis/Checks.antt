-- ===== src/Contract/Basis/Checks.antt =====
-- packages/contracts/src/decision/v1/decision-basis.ts: `validateRiskClaimBasis`,
-- `validateDecisionEvidenceClosure` and `checkDecisionBasisV1`.
pub mod Accepted
pub mod Selected
pub mod Eliminated
use choice_mind.Prelude.{
  ℕ, suc, String, Bool, true, false, not, ◌&&◌, ◌||◌, List, [], ◌∷◌, ◌++◌, map, Option, none, some,
  if◌then◌else◌, ◌==◌, eqb, same_text?, length, any, all, flat_map_from,
}
use choice_mind.Js.Equality.{text_equality}
use choice_mind.Js.Sets.{has, add, set_of}
use choice_mind.Js.Maps.{get, or_empty}
use choice_mind.Contract.Types.{
  RequirementRevision, RequirementConstraint, Budget, Candidate, Claim, Evidence, ClaimEvidenceLink,
  EvidenceState, supported, refuted, conflicted, insufficient, ClaimAssessment, PathPart, name,
  index, ContractIssue, DecisionBundle, DecisionRevision, CandidateDisposition, DecisionRisk,
  DecisionStatus, need_more_info,
}
use choice_mind.Contract.Issues.{issue, issue_if, collect_unique_ids, decision_path}
use choice_mind.Contract.Statuses.{is_need_more_info, is_none}
use choice_mind.Contract.Basis.Graph.{
  EvidenceGraph, InternalEvaluation, evaluate_decision_basis_with_graph,
}
use choice_mind.Contract.Basis.Constraints.{
  ConstraintStatus, satisfied, violated, indeterminate, ConstraintAssessment, is_supported,
  assess_candidate_budget_constraint, assess_candidate_constraint, assess_disposition_constraint,
  hard_budget, budget_key,
}
use choice_mind.Contract.Basis.Assessments.{validate_canonical_assessments}
use choice_mind.Contract.Basis.Selection.{validate_selected_candidate_basis, is_satisfied}
use choice_mind.Contract.Basis.Eliminations.{validate_eliminations}

abbrev risk_path : ℕ → String → List PathPart
risk_path i field = name "bundle" ∷ name "decision" ∷ name "risks" ∷ index i ∷ name field ∷ []

-- The SUPPORTS evidence of a risk's claim, against the evidence of the decision.
unfoldable pub risk_evidence_issues : ℕ → List String → List String → List ContractIssue
risk_evidence_issues i decision_evidence [] =
    issue (risk_path i "statementClaimId") "Decision Risk Claim 必须至少有一条有效 SUPPORTS Evidence" ∷ []
risk_evidence_issues i decision_evidence (id ∷ ids) =
    issue_if (not (any (has decision_evidence) (id ∷ ids))) (risk_path i "statementClaimId")
      "Decision Risk 的 SUPPORTS Evidence 必须进入 Decision Evidence"

-- The assessment of a risk's claim.
unfoldable pub risk_assessment_issues :
    ℕ → List String → Option ClaimAssessment → List ContractIssue
unfolding risk_evidence_issues
risk_assessment_issues i decision_evidence none =
    issue (risk_path i "statementClaimId") "Decision Risk Claim 必须由权威 Assessment 判定为 SUPPORTED" ∷ []
risk_assessment_issues i decision_evidence (some assessment) =
    if is_supported assessment.evidence_state
    then risk_evidence_issues i decision_evidence assessment.supporting_evidence_ids
    else issue (risk_path i "statementClaimId") "Decision Risk Claim 必须由权威 Assessment 判定为 SUPPORTED"
      ∷ []

module _ (graph : EvidenceGraph) (decision : DecisionRevision) where
  risk_claim_issues : ℕ → DecisionRisk → Option Claim → List ContractIssue
  unfolding risk_assessment_issues
  risk_claim_issues i risk none =
      issue (risk_path i "statementClaimId") "Decision Risk 必须引用存在的 Claim" ∷ []
  risk_claim_issues i risk (some claim) =
      issue_if (not (claim.subject_id == risk.candidate_id)) (risk_path i "statementClaimId")
        "Decision Risk Claim 必须描述对应 Candidate"
      ++ risk_assessment_issues i (set_of decision.evidence_ids)
          (get graph.claim_assessments_by_id claim.claim_id)

  risk_issues : ℕ → DecisionRisk → List ContractIssue
  unfolding risk_claim_issues
  risk_issues i risk =
      issue_if (is_none (get graph.candidates_by_id risk.candidate_id)) (risk_path i "candidateId")
        "Decision Risk 必须关联存在的 Candidate"
      ++ (issue_if (not (same_text? decision.selected_candidate_id risk.candidate_id))
            (risk_path i "candidateId") "Decision Risk 必须关联被选 Candidate"
          ++ risk_claim_issues i risk (get graph.claims_by_id risk.statement_claim_id))

  unfoldable pub validate_risk_claim_basis : List ContractIssue
  unfolding risk_issues
  validate_risk_claim_basis = flat_map_from risk_issues 0 decision.risks

-- One issue for each supporting evidence of a satisfied constraint that the decision leaves out.
unfoldable pub closure_issues : List String → String → ConstraintAssessment → List ContractIssue
closure_issues decision_evidence message assessment =
    if is_satisfied assessment.status
    then flat_map_from
        (λ j id. issue_if (not (has decision_evidence id)) (decision_path "evidenceIds") message) 0
        assessment.supporting_evidence_ids
    else []

budget_closure : List String → Candidate → Option Budget → EvidenceGraph → List ContractIssue
unfolding closure_issues
budget_closure decision_evidence candidate none graph = []
budget_closure decision_evidence candidate (some budget) graph =
    closure_issues decision_evidence "被选 Candidate 的预算 Evidence 必须进入 Decision Evidence"
      (assess_candidate_budget_constraint candidate budget graph)

selected_closure :
    List String → Option Candidate → RequirementRevision → EvidenceGraph → List ContractIssue
unfolding budget_closure
selected_closure decision_evidence none requirement graph = []
selected_closure decision_evidence (some candidate) requirement graph =
    budget_closure decision_evidence candidate (hard_budget requirement) graph
    ++ flat_map_from
        (λ j constraint.
          closure_issues decision_evidence
            "被选 Candidate 的 must-have Evidence 必须进入 Decision Evidence"
            (assess_candidate_constraint candidate.candidate_id constraint graph))
        0 requirement.must_haves

-- The candidate that the decision selects, if the graph has it.
unfoldable pub selected_candidate : DecisionRevision → EvidenceGraph → Option Candidate
selected_candidate decision graph = elim decision.selected_candidate_id [
  | none ↦ none
  | some id ↦ get graph.candidates_by_id id
]

unfoldable pub validate_decision_evidence_closure :
    DecisionRevision → RequirementRevision → EvidenceGraph → List ContractIssue
unfolding selected_closure
validate_decision_evidence_closure decision requirement graph =
    issue_if (eqb (length decision.evidence_ids) 0) (decision_path "evidenceIds")
      "Decision 必须引用至少一条 Evidence"
    ++ (flat_map_from
          (λ i id.
            issue_if (is_none (get graph.evidence_by_id id))
              (name "bundle" ∷ name "decision" ∷ name "evidenceIds" ∷ index i ∷ [])
              "Decision 引用了不存在的 Evidence")
          0 decision.evidence_ids
        ++ selected_closure (set_of decision.evidence_ids) (selected_candidate decision graph)
            requirement graph)

-- The checks of a bundle whose structure is sound, against its graph.
unfoldable pub graph_issues :
    DecisionBundle → List ClaimAssessment → EvidenceGraph → List ContractIssue
graph_issues bundle derived graph =
    let decision = bundle.decision in
    let requirement = bundle.requirement_revision in
    let selected = selected_candidate decision graph in
    validate_canonical_assessments bundle.claim_assessments derived
    ++ (collect_unique_ids (λ d. d.disposition_id)
          (name "bundle" ∷ name "decision" ∷ name "candidateDispositions" ∷ []) "dispositionId"
          "Candidate Disposition" decision.candidate_dispositions
        ++ (issue_if (not (is_none decision.selected_candidate_id) && is_none selected)
              (decision_path "selectedCandidateId") "Decision 必须选择结果中存在的 Candidate"
            ++ (validate_selected_candidate_basis selected requirement graph
                ++ (validate_eliminations graph requirement decision bundle.candidates
                    ++ (validate_risk_claim_basis graph decision
                        ++ validate_decision_evidence_closure decision requirement graph)))))

-- What the evaluation raised, and the checks against its graph, if it has one.
evaluation_issues : DecisionBundle → InternalEvaluation → List ContractIssue
evaluation_issues bundle evaluation = elim evaluation.graph [
  | none ↦ evaluation.issues
  | some graph ↦ evaluation.issues ++ graph_issues bundle evaluation.claim_assessments graph
]

unfoldable pub check_decision_basis : String → DecisionBundle → List ContractIssue
unfolding evaluation_issues
check_decision_basis decision_task_id bundle =
    evaluation_issues bundle (evaluate_decision_basis_with_graph decision_task_id bundle)
