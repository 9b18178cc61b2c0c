-- ===== src/Contract/Tests/Basis.antt =====
-- packages/contracts/src/decision/v1/decision-basis.ts: the theorems on the basis, at the sample bundle.
use choice_mind.Prelude.{
  ◌≢◌, ◌⊎◌, ℕ, String, ◌≡◌, refl, ◌↔◌, true, false, [], ◌∷◌, map, some, Any, All, ◌≤◌, ◌<◌,
}
use choice_mind.Js.Sets.{In, Distinct}
use choice_mind.Contract.Types.{need_more_info, supports, refutes, Budget}
use choice_mind.Contract.Basis.Graph.{
  EvidenceGraph, assess_claim, derived_assessments, evidence_graph,
}
use choice_mind.Contract.Basis.Graph.Directions.{assessed}
use choice_mind.Contract.Basis.Graph.Assessed.{Backs, Means, assess_claim-Backs, assess_claim-Means}
use choice_mind.Contract.Basis.Constraints.{
  satisfied, violated, read_quantity, read_money, meets, hard_budget, assess_candidate_constraint,
  assess_candidate_budget_constraint,
}
use choice_mind.Contract.Basis.Constraints.Agreement.{
  Agreed, assess_candidate_constraint_iff, assess_candidate_budget_constraint_iff,
}
use choice_mind.Contract.Basis.Assessments.{validate_canonical_assessments}
use choice_mind.Contract.Basis.Assessments.Canonical.{validate_canonical_assessments-eq-nil}
use choice_mind.Contract.Basis.Selection.{validate_selected_candidate_basis}
use choice_mind.Contract.Basis.Selection.Satisfied.{
  Affords, Satisfies, validate_selected_candidate_basis-eq-nil,
}
use choice_mind.Contract.Basis.Eliminations.Eliminated.{IsEliminated}
use choice_mind.Contract.Basis.Checks.Eliminated.{accepted-eliminations}
use choice_mind.Contract.Basis.Checks.Accepted.{accepted_assessments}
use choice_mind.Contract.Basis.Checks.Selected.{IsGrounded, accepted-must_haves, accepted-budget}
use choice_mind.Contract.Tests.{
  memory, limit, requirement, laptop, price_claim, bundle, basis_accepted, structure_accepted,
  supported_by_page,
}

abbrev graph : EvidenceGraph
graph = evidence_graph "t1" bundle

hard_limit : hard_budget requirement ≡ some limit
unfolding hard_budget
hard_limit = refl

accepted-must_haves_example :
    In "c1" (map (λ c. c.candidate_id) bundle.candidates)
    × All
        (λ constraint.
          (amount : ℕ) × (IsGrounded bundle (read_quantity constraint) "c1" constraint.key amount
            × (meets constraint.operator amount constraint.value.amount ≡ true)))
        (memory ∷ [])
accepted-must_haves_example = accepted-must_haves "t1" bundle basis_accepted "c1" refl

accepted-budget_example :
    Any
      (λ c.
        (c.candidate_id ≡ "c1")
        × ((c.observed_price.amount_minor ≤ 800000)
            × IsGrounded bundle (read_money c) "c1" "price.observed" c.observed_price.amount_minor))
      bundle.candidates
accepted-budget_example = accepted-budget "t1" bundle basis_accepted "c1" limit refl hard_limit

assess_claim-Means_example :
    Means
      (assess_claim "t1" bundle price_claim).evidence_state
      ((id : String) × Backs bundle supports "k1" id)
      ((id : String) × Backs bundle refutes "k1" id)
assess_claim-Means_example = assess_claim-Means "t1" bundle structure_accepted price_claim

assess_claim-Backs_example :
    In "e1" (assessed supports (assess_claim "t1" bundle price_claim))
    ↔ Backs bundle supports "k1" "e1"
assess_claim-Backs_example =
    assess_claim-Backs "t1" bundle structure_accepted supports price_claim "e1"

validate_selected_candidate_basis-eq-nil_example :
    (validate_selected_candidate_basis (some laptop) requirement graph ≡ []) ↔ (
      ((budget : Budget)
        → hard_budget requirement ≡ some budget
        → Affords laptop requirement graph budget)
      × All (Satisfies laptop requirement graph) requirement.must_haves)
validate_selected_candidate_basis-eq-nil_example =
    validate_selected_candidate_basis-eq-nil laptop requirement graph

assess_candidate_constraint_iff_example :
    (((assess_candidate_constraint "c1" memory graph).status ≡ satisfied) ↔ (
      (amount : ℕ) × (Agreed graph (read_quantity memory) "c1" "memory" amount
        × (meets memory.operator amount 32 ≡ true))))
    × (((assess_candidate_constraint "c1" memory graph).status ≡ violated) ↔ (
        (amount : ℕ) × (Agreed graph (read_quantity memory) "c1" "memory" amount
          × (meets memory.operator amount 32 ≡ false))))
assess_candidate_constraint_iff_example = assess_candidate_constraint_iff graph "c1" memory

assess_candidate_budget_constraint_iff_example :
    (((assess_candidate_budget_constraint laptop limit graph).status ≡ satisfied)
      ↔ (Agreed graph (read_money laptop) "c1" "price.observed" 750000 × (750000 ≤ 800000)))
    × (((assess_candidate_budget_constraint laptop limit graph).status ≡ violated)
        ↔ (Agreed graph (read_money laptop) "c1" "price.observed" 750000 × (800000 < 750000)))
assess_candidate_budget_constraint_iff_example =
    assess_candidate_budget_constraint_iff graph laptop limit

validate_canonical_assessments-eq-nil_example :
    (validate_canonical_assessments (supported_by_page "k1" ∷ []) (supported_by_page "k2" ∷ [])
      ≡ [])
    ↔ (((supported_by_page "k1" ∷ []) ≡ (supported_by_page "k2" ∷ []))
        × Distinct (map (λ a. a.claim_id) (supported_by_page "k2" ∷ [])))
validate_canonical_assessments-eq-nil_example =
    validate_canonical_assessments-eq-nil (supported_by_page "k1" ∷ [])
      (supported_by_page "k2" ∷ [])

accepted_assessments_example :
    (bundle.claim_assessments ≡ derived_assessments "t1" bundle)
    × Distinct (map (λ a. a.claim_id) (derived_assessments "t1" bundle))
accepted_assessments_example = accepted_assessments "t1" bundle basis_accepted

accepted-eliminations_example :
    All (IsEliminated graph requirement bundle.decision) bundle.decision.candidate_dispositions
    × (bundle.decision.status ≢ need_more_info
        → All
            (λ c.
              (bundle.decision.selected_candidate_id ≡ some c.candidate_id)
              ⊎ In c.candidate_id
                  (map (λ d. d.candidate_id) bundle.decision.candidate_dispositions))
            bundle.candidates)
accepted-eliminations_example = accepted-eliminations "t1" bundle basis_accepted
