-- ===== src/Contract/Result/Conditions/Priced.antt =====
-- packages/contracts/src/decision/v1/invariants.ts: the conditions that a result is accepted with.
use choice_mind.Prelude.{
  ℕ, ◌≡◌, true, false, List, [], ◌∷◌, map, Option, none, some, arith, ◌≤◌, same_text?_iff, any_iff,
  All, Any,
}
use choice_mind.Js.Equality.{text_equality}
use choice_mind.Js.Sets.{In, has_iff, In-set_of}
use choice_mind.Contract.Types.{
  Currency, ConditionKind, max_price, official_warranty, DecisionCondition, Budget, DecisionBundle,
}
use choice_mind.Contract.Issues.{
  issue_if-nil, issue_if-not-nil, nil-parts, flat_map_from-eq-nil, AllFrom, AllFrom-map,
}
use choice_mind.Contract.Basis.Constraints.{hard_budget}
use choice_mind.Contract.Result.Conditions.{
  exceeds, verifies_condition, condition_issues, all_condition_issues,
}

exceeds-false :
    (kind : ConditionKind) (budget : Option Budget)
    → exceeds kind budget ≡ false
    → (amount : ℕ) (currency : Currency) (b : Budget) → kind ≡ max_price amount currency
    → budget ≡ some b
    → amount ≤ b.max_amount_minor
unfolding exceeds
exceeds-false official_warranty budget h amount currency b k l = cc k
exceeds-false (max_price m c) none h amount currency b k l = cc l
exceeds-false (max_price m c) (some d) h amount currency b k l = ground (arith, k, l)

module _ (bundle : DecisionBundle) where
  -- The condition is about the selected candidate, which the bundle has; a limit on its price is within the
  -- hard budget, if there is one; and a next step verifies it.
  pub record IsSound (condition : DecisionCondition) : Type 0 where
    pub known : In condition.candidate_id (map (λ c. c.candidate_id) bundle.candidates)
    pub chosen : bundle.decision.selected_candidate_id ≡ some condition.candidate_id
    pub affordable :
        (amount : ℕ) (currency : Currency) (budget : Budget)
        → condition.condition_type ≡ max_price amount currency
        → hard_budget bundle.requirement_revision ≡ some budget
        → amount ≤ budget.max_amount_minor
    pub verified :
        Any
          (λ step. verifies_condition condition.condition_id step ≡ true)
          bundle.decision.next_steps

  condition_issues-IsSound :
      (i : ℕ) (condition : DecisionCondition)
      → condition_issues bundle i condition ≡ []
      → IsSound condition
  unfolding condition_issues
  condition_issues-IsSound i condition h =
      let (a, t) = nil-parts _ _ h in
      let (b, u) = nil-parts _ _ t in
      let (c, d) = nil-parts _ _ u in
      record {
        known = (In-set_of _ _).0 ((has_iff _ _).0 (issue_if-not-nil _ _ _ a));
        chosen = (same_text?_iff _ _).0 (issue_if-not-nil _ _ _ b);
        affordable =
            exceeds-false condition.condition_type (hard_budget bundle.requirement_revision)
              (issue_if-nil _ _ _ c);
        verified = (any_iff _ _).0 (issue_if-not-nil _ _ _ d);
      }

  All-of :
      (P : DecisionCondition → Type 0) (i : ℕ) (xs : List DecisionCondition)
      → AllFrom (λ j x. P x) i xs
      → All P xs
  All-of P i [] h = tt
  All-of P i (x ∷ xs) (h, t) = (h, All-of P _ xs t)

  pub all_condition_issues-IsSound :
      all_condition_issues bundle ≡ [] → All IsSound bundle.decision.conditions
  unfolding all_condition_issues
  all_condition_issues-IsSound h = All-of IsSound 0 bundle.decision.conditions (
      AllFrom-map condition_issues-IsSound 0 bundle.decision.conditions
        ((flat_map_from-eq-nil (condition_issues bundle) 0 bundle.decision.conditions).0 h))
