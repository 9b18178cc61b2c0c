-- ===== src/Contract/Basis/Selection/Satisfied.antt =====
-- packages/contracts/src/decision/v1/decision-basis.ts: when `validateSelectedCandidateBasis` raises nothing.
use choice_mind.Prelude.{
  ℕ, ◌≡◌, refl, ◌↔◌, true, [], Option, none, some, arith, all_iff, All, All-map, ◌≤◌, subst,
}
use choice_mind.Contract.Types.{Candidate, RequirementConstraint, RequirementRevision, Budget}
use choice_mind.Contract.Issues.{issue_if-eq-nil, issue_if-not-nil, nil-parts, nil-join}
use choice_mind.Contract.Basis.Graph.{EvidenceGraph}
use choice_mind.Contract.Basis.Selection.{
  is_satisfied, budget_satisfied, validate_selected_candidate_basis,
}
use choice_mind.Contract.Basis.Constraints.{
  ConstraintStatus, satisfied, read_quantity, read_money, meets, assess_candidate_constraint,
  hard_budget,
}
use choice_mind.Contract.Basis.Constraints.Agreement.{
  Agreed, assess_candidate_constraint_iff, assess_candidate_budget_constraint_iff,
}

is_satisfied_iff : (s : ConstraintStatus) → (is_satisfied s ≡ true) ↔ (s ≡ satisfied)
is_satisfied_iff s = ground arith

same_budget : {b c : Budget} → some b ≡ some c → b ≡ c
same_budget k = cc k

module _ (candidate : Candidate) (requirement : RequirementRevision) (graph : EvidenceGraph) where
  -- The price is agreed and within the budget.
  abbrev pub Affords : Budget → Type 0
  Affords budget =
      Agreed graph (read_money candidate) candidate.candidate_id "price.observed"
        candidate.observed_price.amount_minor
      × (candidate.observed_price.amount_minor ≤ budget.max_amount_minor)

  -- The facts agree on an amount that meets the must-have.
  abbrev pub Satisfies : RequirementConstraint → Type 0
  Satisfies constraint =
      (amount : ℕ) × (Agreed graph (read_quantity constraint) candidate.candidate_id constraint.key
          amount
        × (meets constraint.operator amount constraint.value.amount ≡ true))

  budget_satisfied_iff :
      (o : Option Budget)
      → (budget_satisfied candidate o graph ≡ true)
        ↔ ((budget : Budget) → o ≡ some budget → Affords budget)
  unfolding budget_satisfied
  budget_satisfied_iff none = (λ h b k. cc k, λ h. refl)
  budget_satisfied_iff (some b) =
      let (afford, _) = assess_candidate_budget_constraint_iff graph candidate b in
      (
        λ h c k. subst Affords (same_budget k) (afford.0 ((is_satisfied_iff _).0 h)),
        λ h. (is_satisfied_iff _).1 (afford.1 (h b refl)),
      )

  -- The checks of a selected candidate raise no issue exactly when the facts of the graph agree on its
  -- observed price, within the budget if that is confirmed and hard, and for every must-have agree on an
  -- amount that meets it.
  pub validate_selected_candidate_basis-eq-nil :
      (validate_selected_candidate_basis (some candidate) requirement graph ≡ []) ↔ (
        ((budget : Budget) → hard_budget requirement ≡ some budget → Affords budget)
        × All Satisfies requirement.must_haves)
  unfolding validate_selected_candidate_basis
  validate_selected_candidate_basis-eq-nil =
      let test = λ (c : RequirementConstraint).
        is_satisfied (assess_candidate_constraint candidate.candidate_id c graph).status in
      let each = λ (c : RequirementConstraint).
        (assess_candidate_constraint_iff graph candidate.candidate_id c).0 in
      (
        λ h.
            let (budget, musts) = nil-parts _ _ h in
            (
              (budget_satisfied_iff (hard_budget requirement)).0 (issue_if-not-nil _ _ _ budget),
              All-map (λ c p. (each c).0 ((is_satisfied_iff _).0 p)) requirement.must_haves
                  ((all_iff test requirement.must_haves).0 (issue_if-not-nil _ _ _ musts)),
            ),
        λ (budget, musts).
            let b = (budget_satisfied_iff (hard_budget requirement)).1 budget in
            let m = (all_iff test requirement.must_haves).1 (
              All-map (λ c p. (is_satisfied_iff _).1 ((each c).1 p)) requirement.must_haves
                musts) in
            nil-join _ _ ((issue_if-eq-nil _ _ _).1 (ground (arith, b)))
              ((issue_if-eq-nil _ _ _).1 (ground (arith, m))),
      )
