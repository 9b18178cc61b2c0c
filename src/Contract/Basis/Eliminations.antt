-- ===== src/Contract/Basis/Eliminations.antt =====
-- packages/contracts/src/decision/v1/decision-basis.ts: `validateEliminations`.
pub mod Eliminated
use choice_mind.Prelude.{
  ℕ, suc, String, Bool, true, false, not, ◌&&◌, List, [], ◌∷◌, ◌++◌, map, none, some, if◌then◌else◌,
  ◌==◌, same_text?, any, flat_map_from,
}
use choice_mind.Js.Equality.{text_equality}
use choice_mind.Js.Sets.{has, add, set_of}
use choice_mind.Js.Maps.{get, or_empty}
use choice_mind.Contract.Types.{
  RequirementRevision, Candidate, PathPart, name, index, ContractIssue, DecisionRevision,
  CandidateDisposition,
}
use choice_mind.Contract.Issues.{issue, issue_if}
use choice_mind.Contract.Statuses.{is_need_more_info, is_none}
use choice_mind.Contract.Basis.Graph.{EvidenceGraph}
use choice_mind.Contract.Basis.Constraints.{
  ConstraintStatus, violated, assess_disposition_constraint, hard_budget, budget_key,
}

abbrev pub is_violated : ConstraintStatus → Bool
is_violated violated = true
is_violated _ = false

unfoldable pub hard_constraint_keys : RequirementRevision → List String
hard_constraint_keys requirement =
    let keys = set_of (map (λ c. c.key) requirement.must_haves) in
    elim (hard_budget requirement) [ none ↦ keys | some budget ↦ add keys budget_key ]

abbrev disposition_path : ℕ → String → List PathPart
disposition_path i field =
    name "bundle" ∷ name "decision" ∷ name "candidateDispositions" ∷ index i ∷ name field ∷ []

abbrev evidence_path : ℕ → ℕ → List PathPart
evidence_path i j =
    name "bundle"
    ∷ name "decision"
    ∷ name "candidateDispositions"
    ∷ index i
    ∷ name "evidenceIds"
    ∷ index j
    ∷ []

-- Some claim that the evidence is linked to is about the candidate.
describes_candidate : EvidenceGraph → String → String → Bool
describes_candidate graph evidence_id candidate_id =
    any
      (λ link. elim (get graph.claims_by_id link.claim_id) [
        | none ↦ false
        | some claim ↦ claim.subject_id == candidate_id
      ])
      (or_empty (get graph.links_by_evidence_id evidence_id))

disposition_evidence_issues : EvidenceGraph → String → ℕ → ℕ → String → List ContractIssue
unfolding describes_candidate
disposition_evidence_issues graph candidate_id i j evidence_id =
    elim (get graph.evidence_by_id evidence_id) [
      | none ↦ issue (evidence_path i j) "Candidate Disposition 引用了不存在的 Evidence" ∷ []
      | some evidence ↦
          issue_if (not (describes_candidate graph evidence_id candidate_id)) (evidence_path i j)
            "Candidate Disposition Evidence 必须描述对应 Candidate"
    ]

-- The disposition's evidence proves that the candidate violates its constraint.
unfoldable pub proves_violation : EvidenceGraph → RequirementRevision → CandidateDisposition → Bool
proves_violation graph requirement disposition =
    let assessment =
      assess_disposition_constraint disposition.candidate_id disposition.requirement_key requirement
        graph in
    is_violated assessment.status
    && any (λ id. has assessment.supporting_evidence_ids id) disposition.evidence_ids

module _ (graph : EvidenceGraph) (requirement : RequirementRevision)
    (decision : DecisionRevision) where
  -- The issues of one disposition, given the candidates of those before it.
  disposition_issues : List String → ℕ → CandidateDisposition → List ContractIssue
  unfolding disposition_evidence_issues
  disposition_issues seen i disposition =
      issue_if (has seen disposition.candidate_id) (disposition_path i "candidateId")
        "同一 Candidate 只能拥有一个 Candidate Disposition"
      ++ (issue_if (same_text? decision.selected_candidate_id disposition.candidate_id)
            (disposition_path i "candidateId") "被选 Candidate 不能拥有 Candidate Disposition"
          ++ (issue_if (is_none (get graph.candidates_by_id disposition.candidate_id))
                (disposition_path i "candidateId") "Candidate Disposition 必须关联存在的 Candidate"
              ++ (flat_map_from (disposition_evidence_issues graph disposition.candidate_id i) 0
                    disposition.evidence_ids
                  ++ (issue_if
                        (not (has (hard_constraint_keys requirement) disposition.requirement_key))
                        (disposition_path i "requirementKey")
                        "ELIMINATED Disposition 必须引用真实 Hard Constraint"
                      ++ issue_if
                          (has (hard_constraint_keys requirement) disposition.requirement_key
                            && not (proves_violation graph requirement disposition))
                          (disposition_path i "requirementKey")
                          "ELIMINATED Evidence 必须证明 Candidate 违反 Hard Constraint"))))

  -- The loop over the dispositions.
  all_disposition_issues : List String → ℕ → List CandidateDisposition → List ContractIssue
  unfolding disposition_issues
  all_disposition_issues seen i [] = []
  all_disposition_issues seen i (d ∷ ds) =
      disposition_issues seen i d ++ all_disposition_issues (add seen d.candidate_id) (suc i) ds

  undisposed_issues : ℕ → Candidate → List ContractIssue
  undisposed_issues i candidate =
      issue_if
        (not (same_text? decision.selected_candidate_id candidate.candidate_id)
          && not (
              has (set_of (map (λ d. d.candidate_id) decision.candidate_dispositions))
                candidate.candidate_id))
        (name "bundle" ∷ name "candidates" ∷ index i ∷ name "candidateId" ∷ [])
        "未选 Candidate 必须拥有 Candidate Disposition"

  unfoldable pub validate_eliminations : List Candidate → List ContractIssue
  unfolding all_disposition_issues undisposed_issues
  validate_eliminations candidates =
      all_disposition_issues [] 0 decision.candidate_dispositions
      ++ (if is_need_more_info decision.status
          then []
          else flat_map_from undisposed_issues 0 candidates)
