-- ===== src/Contract/Basis/Graph.antt =====
-- packages/contracts/src/decision/v1/decision-basis.ts: `evaluateDecisionBasisWithGraph` and
-- `deriveClaimAssessment`. The maps of the graph are those of `Js.Maps`.
pub mod Directions
pub mod Assessed
use Prim.Native.Char.{nul}
use Prim.Native.String.{◌++◌ as ◌+text◌}
use choice_mind.Prelude.{
  ℕ, suc, String, Bool, true, false, not, List, [], ◌∷◌, ◌++◌, map, Option, none, some,
  if◌then◌else◌, ◌==◌, ltb, flat_map_from,
}
use choice_mind.Js.Equality.{text_equality}
use choice_mind.Js.Sets.{has, add, set_of}
use choice_mind.Js.Maps.{get, index_by, group_by, or_empty}
use choice_mind.Js.Sorting.{sort_by}
use choice_mind.Contract.Types.{
  Timestamp, Candidate, Claim, Evidence, ClaimEvidenceLink, LinkDirection, supports, refutes,
  EvidenceState, supported, refuted, conflicted, insufficient, ClaimAssessment, PathPart, name,
  index, ContractIssue, DecisionBundle,
}
use choice_mind.Contract.Issues.{issue_if, collect_unique_ids}

pub record EvidenceGraph : Type 0 where
  pub candidates_by_id : List (String × Candidate)
  pub claims_by_id : List (String × Claim)
  pub evidence_by_id : List (String × Evidence)
  pub links_by_evidence_id : List (String × List ClaimEvidenceLink)
  pub claim_assessments_by_id : List (String × ClaimAssessment)
  pub claims_by_candidate_and_predicate : List (String × List Claim)

pub record InternalEvaluation : Type 0 where
  pub claim_assessments : List ClaimAssessment
  pub graph : Option EvidenceGraph
  pub issues : List ContractIssue

-- `compareUtc(left, right) < 0`
abbrev pub utc_before : Timestamp → Timestamp → Bool
utc_before left right = ltb left.millis right.millis

-- `${left}\u0000${right}`, the key of a pair.
unfoldable pub nul_key : String → String → String
nul_key left right = left +text (String.◌∷◌ nul right)

pub record Sides : Type 0 where
  pub supporting : List String
  pub refuting : List String

-- Evidence that is missing, or no longer valid when the decision takes effect, is passed over.
unfoldable pub is_current : List (String × Evidence) → Timestamp → ClaimEvidenceLink → Bool
is_current evidence_by_id valid_from link = elim (get evidence_by_id link.evidence_id) [
  | none ↦ false
  | some evidence ↦ not (utc_before evidence.valid_until valid_from)
]

add_side : Sides → LinkDirection → String → Sides
add_side s supports evidence_id = record s { supporting = add s.supporting evidence_id }
add_side s refutes evidence_id = record s { refuting = add s.refuting evidence_id }

-- The loop over the links of one claim.
collect_sides : List (String × Evidence) → Timestamp → Sides → List ClaimEvidenceLink → Sides
collect_sides evidence_by_id valid_from s [] = s
collect_sides evidence_by_id valid_from s (link ∷ links) =
    collect_sides evidence_by_id valid_from
      (if is_current evidence_by_id valid_from link
        then add_side s link.direction link.evidence_id
        else s)
      links

abbrev pub state_of : List String → List String → EvidenceState
state_of [] [] = insufficient
state_of [] (r ∷ rs) = refuted
state_of (s ∷ ss) [] = supported
state_of (s ∷ ss) (r ∷ rs) = conflicted

unfoldable pub derive_claim_assessment :
    Claim → List ClaimEvidenceLink → List (String × Evidence) → Timestamp → ClaimAssessment
unfolding collect_sides add_side is_current
derive_claim_assessment claim links evidence_by_id valid_from =
    let sides =
      collect_sides evidence_by_id valid_from (record { supporting = []; refuting = [] }) links in
    let supporting = sort_by (λ id. id) sides.supporting in
    let refuting = sort_by (λ id. id) sides.refuting in
    record {
      claim_id = claim.claim_id;
      evidence_state = state_of supporting refuting;
      supporting_evidence_ids = supporting;
      refuting_evidence_ids = refuting;
    }

module _ (decision_task_id : String) (bundle : DecisionBundle) where
  candidate_ids : List String
  candidate_ids = set_of (map (λ c. c.candidate_id) bundle.candidates)

  claim_ids : List String
  claim_ids = set_of (map (λ c. c.claim_id) bundle.claims)

  evidence_ids : List String
  evidence_ids = set_of (map (λ e. e.evidence_id) bundle.evidence)

  candidate_issues : ℕ → Candidate → List ContractIssue
  candidate_issues i candidate =
      issue_if (not (candidate.decision_task_id == decision_task_id))
        (name "bundle" ∷ name "candidates" ∷ index i ∷ name "decisionTaskId" ∷ [])
        "Candidate 必须属于结果中的 Decision Task"

  claim_issues : ℕ → Claim → List ContractIssue
  unfolding candidate_ids
  claim_issues i claim =
      issue_if (not (claim.decision_task_id == decision_task_id))
        (name "bundle" ∷ name "claims" ∷ index i ∷ name "decisionTaskId" ∷ [])
        "Claim 必须属于结果中的 Decision Task"
      ++ issue_if (not (has candidate_ids claim.subject_id))
          (name "bundle" ∷ name "claims" ∷ index i ∷ name "subject" ∷ name "subjectId" ∷ [])
          "Claim 必须关联存在的 Candidate"

  evidence_issues : ℕ → Evidence → List ContractIssue
  evidence_issues i evidence =
      issue_if (not (evidence.decision_task_id == decision_task_id))
        (name "bundle" ∷ name "evidence" ∷ index i ∷ name "decisionTaskId" ∷ [])
        "Evidence 必须属于结果中的 Decision Task"
      ++ (issue_if (utc_before evidence.valid_until evidence.captured_at)
            (name "bundle" ∷ name "evidence" ∷ index i ∷ name "validUntil" ∷ [])
            "Evidence 有效期不得早于采集时间"
          ++ issue_if (utc_before bundle.decision.valid_from evidence.captured_at)
              (name "bundle" ∷ name "evidence" ∷ index i ∷ name "capturedAt" ∷ [])
              "Decision 不得引用形成时间之后采集的 Evidence")

  abbrev link_path : ℕ → String → List PathPart
  link_path i field = name "bundle" ∷ name "claimEvidenceLinks" ∷ index i ∷ name field ∷ []

  -- The issues of one link, given the pairs of claim and evidence seen before it.
  link_issues : List String → ℕ → ClaimEvidenceLink → List ContractIssue
  unfolding claim_ids evidence_ids nul_key
  link_issues pairs i link =
      issue_if (not (link.decision_task_id == decision_task_id)) (link_path i "decisionTaskId")
        "Claim-Evidence Link 必须属于结果中的 Decision Task"
      ++ (issue_if (not (has claim_ids link.claim_id)) (link_path i "claimId")
            "Claim-Evidence Link 必须引用存在的 Claim"
          ++ (issue_if (not (has evidence_ids link.evidence_id)) (link_path i "evidenceId")
                "Claim-Evidence Link 必须引用存在的 Evidence"
              ++ issue_if (has pairs (nul_key link.claim_id link.evidence_id))
                  (link_path i "evidenceId") "同一 Claim 与 Evidence 组合只能有一个关系方向"))

  -- The loop over the links.
  all_link_issues : List String → ℕ → List ClaimEvidenceLink → List ContractIssue
  unfolding link_issues
  all_link_issues pairs i [] = []
  all_link_issues pairs i (link ∷ links) =
      link_issues pairs i link
      ++ all_link_issues (add pairs (nul_key link.claim_id link.evidence_id)) (suc i) links

  -- `linkedEvidenceIds` after that loop.
  linked_evidence_ids : List String → List ClaimEvidenceLink → List String
  unfolding evidence_ids
  linked_evidence_ids linked [] = linked
  linked_evidence_ids linked (link ∷ links) =
      linked_evidence_ids
        (if has evidence_ids link.evidence_id then add linked link.evidence_id else linked) links

  unlinked_issues : ℕ → Evidence → List ContractIssue
  unfolding linked_evidence_ids
  unlinked_issues i evidence =
      issue_if (not (has (linked_evidence_ids [] bundle.claim_evidence_links) evidence.evidence_id))
        (name "bundle" ∷ name "evidence" ∷ index i ∷ name "evidenceId" ∷ [])
        "每份 Evidence 必须至少关联一个 Claim"

  -- What is wrong with the ids, owners, times and links of the bundle, in the order of the checks.
  unfoldable pub structure_issues : List ContractIssue
  unfolding candidate_issues claim_issues evidence_issues all_link_issues unlinked_issues
  structure_issues =
      collect_unique_ids (λ c. c.candidate_id) (name "bundle" ∷ name "candidates" ∷ [])
        "candidateId" "Candidate" bundle.candidates
      ++ (collect_unique_ids (λ c. c.claim_id) (name "bundle" ∷ name "claims" ∷ []) "claimId"
            "Claim" bundle.claims
          ++ (collect_unique_ids (λ e. e.evidence_id) (name "bundle" ∷ name "evidence" ∷ [])
                "evidenceId" "Evidence" bundle.evidence
              ++ (collect_unique_ids (λ l. l.link_id)
                    (name "bundle" ∷ name "claimEvidenceLinks" ∷ []) "linkId" "Claim-Evidence Link"
                    bundle.claim_evidence_links
                  ++ (flat_map_from candidate_issues 0 bundle.candidates
                      ++ (flat_map_from claim_issues 0 bundle.claims
                          ++ (flat_map_from evidence_issues 0 bundle.evidence
                              ++ (issue_if
                                    (utc_before bundle.decision.valid_until
                                      bundle.decision.valid_from)
                                    (name "bundle" ∷ name "decision" ∷ name "validUntil" ∷ [])
                                    "Decision 有效期不得早于生效时间"
                                  ++ (all_link_issues [] 0 bundle.claim_evidence_links
                                      ++ flat_map_from unlinked_issues 0 bundle.evidence))))))))

  unfoldable pub evidence_by_id : List (String × Evidence)
  evidence_by_id = index_by (λ e. e.evidence_id) [] bundle.evidence

  unfoldable pub links_by_claim_id : List (String × List ClaimEvidenceLink)
  links_by_claim_id = group_by (λ l. l.claim_id) [] bundle.claim_evidence_links

  abbrev pub assess_claim : Claim → ClaimAssessment
  assess_claim claim =
      derive_claim_assessment claim (or_empty (get links_by_claim_id claim.claim_id)) evidence_by_id
        bundle.decision.valid_from

  unfoldable pub derived_assessments : List ClaimAssessment
  derived_assessments = map assess_claim (sort_by (λ c. c.claim_id) bundle.claims)

  unfoldable pub evidence_graph : EvidenceGraph
  evidence_graph = record {
    candidates_by_id = index_by (λ c. c.candidate_id) [] bundle.candidates;
    claims_by_id = index_by (λ c. c.claim_id) [] bundle.claims;
    evidence_by_id = evidence_by_id;
    links_by_evidence_id = group_by (λ l. l.evidence_id) [] bundle.claim_evidence_links;
    claim_assessments_by_id = index_by (λ a. a.claim_id) [] derived_assessments;
    claims_by_candidate_and_predicate =
        group_by (λ c. nul_key c.subject_id c.predicate) [] bundle.claims;
  }

  -- The graph is there exactly when the structure raised no issue.
  unfoldable pub evaluate_decision_basis_with_graph : InternalEvaluation
  evaluate_decision_basis_with_graph = elim structure_issues [
    | [] ↦ record {
      claim_assessments = derived_assessments;
      graph = some evidence_graph;
      issues = [];
    }
    | i ∷ is ↦ record { claim_assessments = []; graph = none; issues = i ∷ is }
  ]
