-- ===== src/Contract/Basis/Checks/Selected.antt =====
-- packages/contracts/src/decision/v1/decision-basis.ts: what the candidate that an accepted decision
-- selects is known to satisfy, in terms of the bundle's claims, links and evidence.
use choice_mind.Prelude.{
  ℕ, String, ◌≡◌, sym, ap, subst, inl, inr, true, List, [], ◌∷◌, map, Option, some, ◌==◌, eq_iff,
  select, All, Any, All-map, Any-map, ◌≤◌,
}
use choice_mind.Js.Equality.{text_equality}
use choice_mind.Js.Sets.{In}
use choice_mind.Js.Maps.Lookup.{or_empty-get-group_by, Any-select, All-select, nonempty-Any}
use choice_mind.Contract.Types.{Claim, Candidate, supports, refutes, DecisionBundle, Budget}
use choice_mind.Contract.Basis.Graph.{nul_key, evidence_graph}
use choice_mind.Contract.Basis.Graph.Assessed.{Backs}
use choice_mind.Contract.Basis.Selection.{validate_selected_candidate_basis}
use choice_mind.Contract.Basis.Selection.Satisfied.{validate_selected_candidate_basis-eq-nil}
use choice_mind.Contract.Basis.Constraints.{
  is_fact, fact_claims, read_quantity, read_money, meets, hard_budget,
}
use choice_mind.Contract.Basis.Constraints.Agreement.{States, Agreed}
use choice_mind.Contract.Basis.Checks.{check_decision_basis}
use choice_mind.Contract.Basis.Checks.Accepted.{
  Trusts-Backs, selected_basis-nil, accepted_candidate,
}

-- The claim asserts a fact and has the key of the subject and the predicate.
abbrev pub IsFactOf : String → String → Claim → Type 0
IsFactOf subject_id predicate claim =
    (nul_key claim.subject_id claim.predicate ≡ nul_key subject_id predicate)
    × (is_fact claim ≡ true)

-- The claim states the value, current evidence supports it, and no current evidence refutes it.
abbrev pub IsGround : DecisionBundle → (Claim → Option ℕ) → ℕ → Claim → Type 0
IsGround bundle read_value value claim =
    (read_value claim ≡ some value)
    × (((id : String) × Backs bundle supports claim.claim_id id)
        × (¬ ((id : String) × Backs bundle refutes claim.claim_id id)))

-- There is such a fact in the bundle, and every one of them is grounded and states the value.
abbrev pub IsGrounded : DecisionBundle → (Claim → Option ℕ) → String → String → ℕ → Type 0
IsGrounded bundle read_value subject_id predicate value =
    Any (IsFactOf subject_id predicate) bundle.claims
    × All (λ c. IsFactOf subject_id predicate c → IsGround bundle read_value value c) bundle.claims

In-map-of :
    (c : Candidate) (xs : List Candidate)
    → In c xs
    → In c.candidate_id (map (λ x. x.candidate_id) xs)
In-map-of c [] n = n
In-map-of c (x ∷ xs) (inl e) = inl (ap (λ y. y.candidate_id) e)
In-map-of c (x ∷ xs) (inr n) = inr (In-map-of c xs n)

module _ (decision_task_id : String) (bundle : DecisionBundle) where
  fact_claims-select :
      (subject_id predicate : String)
      → fact_claims (evidence_graph decision_task_id bundle) subject_id predicate
        ≡ select is_fact (
            select
              (λ c. nul_key c.subject_id c.predicate == nul_key subject_id predicate)
              bundle.claims)
  unfolding fact_claims evidence_graph
  fact_claims-select subject_id predicate = ap (select is_fact) (
      or_empty-get-group_by (λ c. nul_key c.subject_id c.predicate) bundle.claims
        (nul_key subject_id predicate))

  -- What the facts of the graph agree on is grounded in an accepted bundle.
  pub Agreed-IsGrounded :
      check_decision_basis decision_task_id bundle ≡ []
      → (read_value : Claim → Option ℕ) (subject_id predicate : String) (value : ℕ)
      → Agreed (evidence_graph decision_task_id bundle) read_value subject_id predicate value
      → IsGrounded bundle read_value subject_id predicate value
  Agreed-IsGrounded h read_value subject_id predicate value (some_fact, each) =
      let graph = evidence_graph decision_task_id bundle in
      let keyed = λ (c : Claim). nul_key c.subject_id c.predicate == nul_key subject_id predicate in
      let e = fact_claims-select subject_id predicate in
      let stated = subst (λ l. All (States graph read_value value) l) e each in
      let Ground = IsGround bundle read_value value in
      let grounded =
        All-map (λ c ((ids, t), r). (r, Trusts-Backs decision_task_id bundle h c ids t)) _ stated in
      let per_key =
        (All-select keyed (λ c. is_fact c ≡ true → Ground c) bundle.claims).0
          ((All-select is_fact Ground (select keyed bundle.claims)).0 grounded) in
      let one = nonempty-Any (States graph read_value value) _ some_fact each in
      let found =
        (Any-select is_fact (States graph read_value value) (select keyed bundle.claims)).0
          (subst (λ l. Any (States graph read_value value) l) e one) in
      let member =
        (Any-select keyed (λ c. (is_fact c ≡ true) × States graph read_value value c)
            bundle.claims).0
          found in
      (
        Any-map (λ c (k, (f, _)). ((eq_iff _ _).0 k, f)) bundle.claims member,
        All-map (λ c g (k, f). g ((eq_iff _ _).1 k) f) bundle.claims per_key,
      )

  -- In an accepted bundle, a decision that selects a candidate selects one of the bundle, and for each
  -- must-have there is an amount that meets it such that the bundle has a fact under the key of the
  -- candidate and the must-have, and every such fact states that amount in the unit of the must-have, is
  -- supported by current evidence and is refuted by none.
  pub accepted-must_haves :
      check_decision_basis decision_task_id bundle ≡ []
      → (candidate_id : String) → bundle.decision.selected_candidate_id ≡ some candidate_id
      → In candidate_id (map (λ c. c.candidate_id) bundle.candidates)
        × All
            (λ constraint.
              (amount : ℕ) × (IsGrounded bundle
                  (read_quantity constraint)
                  candidate_id
                  constraint.key
                  amount
                × (meets constraint.operator amount constraint.value.amount ≡ true)))
            bundle.requirement_revision.must_haves
  accepted-must_haves h candidate_id picked =
      let graph = evidence_graph decision_task_id bundle in
      let requirement = bundle.requirement_revision in
      let (c, (here, (named, member))) =
        accepted_candidate decision_task_id bundle h candidate_id picked in
      let checks =
        subst (λ o. validate_selected_candidate_basis o requirement graph ≡ []) here
          (selected_basis-nil decision_task_id bundle h) in
      let (_, musts) = (validate_selected_candidate_basis-eq-nil c requirement graph).0 checks in
      (
        subst (λ k. In k (map (λ x. x.candidate_id) bundle.candidates)) named
            (In-map-of c bundle.candidates member),
        All-map
            (λ m (amount, (agreed, met)). (
              amount,
              (
                subst (λ k. IsGrounded bundle (read_quantity m) k m.key amount) named
                    (Agreed-IsGrounded h (read_quantity m) c.candidate_id m.key amount agreed),
                met,
              ),
            ))
            requirement.must_haves musts,
      )

  -- In an accepted bundle whose requirement has a confirmed and hard budget, a decision that selects a
  -- candidate selects one of the bundle whose observed price is at most the budget; the bundle has a
  -- fact under the key of the candidate and its price, and every such fact states that observed price,
  -- is supported by current evidence and is refuted by none.
  pub accepted-budget :
      check_decision_basis decision_task_id bundle ≡ []
      → (candidate_id : String) (budget : Budget)
      → bundle.decision.selected_candidate_id ≡ some candidate_id
      → hard_budget bundle.requirement_revision ≡ some budget
      → Any
          (λ c.
            (c.candidate_id ≡ candidate_id)
            × ((c.observed_price.amount_minor ≤ budget.max_amount_minor)
                × IsGrounded bundle
                    (read_money c)
                    candidate_id
                    "price.observed"
                    c.observed_price.amount_minor))
          bundle.candidates
  accepted-budget h candidate_id budget picked hard =
      let graph = evidence_graph decision_task_id bundle in
      let requirement = bundle.requirement_revision in
      let (c, (here, (named, member))) =
        accepted_candidate decision_task_id bundle h candidate_id picked in
      let checks =
        subst (λ o. validate_selected_candidate_basis o requirement graph ≡ []) here
          (selected_basis-nil decision_task_id bundle h) in
      let (afford, _) = (validate_selected_candidate_basis-eq-nil c requirement graph).0 checks in
      let (agreed, within) = afford budget hard in
      let price = c.observed_price.amount_minor in
      let grounded =
        subst (λ k. IsGrounded bundle (read_money c) k "price.observed" price) named
          (Agreed-IsGrounded h (read_money c) c.candidate_id "price.observed" price agreed) in
      Any-map
        (λ x e.
          subst
            (λ y.
              (y.candidate_id ≡ candidate_id)
              × ((y.observed_price.amount_minor ≤ budget.max_amount_minor)
                  × IsGrounded bundle (read_money y) candidate_id "price.observed"
                      y.observed_price.amount_minor))
            (sym e) (named, (within, grounded)))
        bundle.candidates member
