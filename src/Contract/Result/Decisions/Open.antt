-- ===== src/Contract/Result/Decisions/Open.antt =====
-- packages/contracts/src/decision/v1/invariants.ts: the decisions that ask for more information.
use choice_mind.Prelude.{
  ℕ, String, ◌≡◌, ◌≢◌, refl, ap, subst, flat_map_from, Bool, true, false, not, ◌||◌, List, [], ◌∷◌,
  ◌++◌, Any-map, Option, none, some, arith, ltb, eqb, length, any, any_iff, All, Any, eq_iff, ◌==◌,
  if◌then◌else◌,
}
use choice_mind.Js.Equality.{text_equality}
use choice_mind.Contract.Types.{
  CriticalGap, CriticalGapResolution, DecisionNextStep, DecisionRevision, RequirementRevision,
  need_more_info, DecisionStatus, ContractIssue,
}
use choice_mind.Contract.Issues.{
  decision_path, issue_if, issue_if-nil, issue_if-not-nil, nil-parts, flat_map_from-eq-nil, AllFrom,
}
use choice_mind.Contract.Statuses.{is_need_more_info, is_none}
use choice_mind.Contract.Basis.Constraints.{budget_key}
use choice_mind.Contract.Result.Decisions.{
  asks_for, resolution_issues, open_gap_issues, need_more_info_issues, budget_needs_confirmation,
  unconfirmed_budget_issues,
}

-- The gap is closed by its own requirement, which a next step asks for.
abbrev pub IsAnswerable : List DecisionNextStep → CriticalGap → Type 0
IsAnswerable steps gap =
    (gap.resolution ≡ CriticalGapResolution.provide_requirement gap.key)
    × Any (λ step. asks_for gap.key step ≡ true) steps

-- The decision selects nothing, eliminates nothing, and has gaps, each of which can be answered.
pub record IsOpen (decision : DecisionRevision) : Type 0 where
  pub unselected : decision.selected_candidate_id ≡ none
  pub undisposed : decision.candidate_dispositions ≡ []
  pub gapped : decision.critical_gaps ≢ []
  pub answerable : All (IsAnswerable decision.next_steps) decision.critical_gaps

is_none-true : {A : Type 0} (o : Option A) → is_none o ≡ true → o ≡ none
is_none-true none h = refl
is_none-true (some a) h = cc h

length-nil : {A : Type 0} (xs : List A) → ltb 0 (length xs) ≡ false → xs ≡ []
length-nil [] h = refl
length-nil (x ∷ xs) h = absurd (ground arith)

length-cons : {A : Type 0} (xs : List A) → eqb (length xs) 0 ≡ false → xs ≢ []
length-cons [] h k = cc h
length-cons (x ∷ xs) h k = cc k

resolution_issues-nil :
    (steps : List DecisionNextStep) (i : ℕ) (key : String) (r : CriticalGapResolution)
    → resolution_issues steps i key r ≡ []
    → (r ≡ CriticalGapResolution.provide_requirement key)
      × Any (λ step. asks_for key step ≡ true) steps
unfolding resolution_issues
resolution_issues-nil steps i key (CriticalGapResolution.verify_condition id) h = cc h
resolution_issues-nil steps i key (CriticalGapResolution.provide_requirement k) h =
    let (named, asked) = neither (k == key) (any (asks_for k) steps) (issue_if-nil _ _ _ h) in
    let same = (eq_iff k key).0 named in
    (
      ap CriticalGapResolution.provide_requirement same,
      (any_iff (asks_for key) steps).0 (subst (λ x. any (asks_for x) steps ≡ true) same asked),
    )
  where
    neither : (a b : Bool) → (not a || not b) ≡ false → (a ≡ true) × (b ≡ true)
    neither true true n = (refl, refl)
    neither true false n = cc n
    neither false b n = cc n

open_gap_issues-IsAnswerable :
    (steps : List DecisionNextStep) (i : ℕ) (gap : CriticalGap)
    → open_gap_issues steps i gap ≡ []
    → IsAnswerable steps gap
unfolding open_gap_issues
open_gap_issues-IsAnswerable steps i gap h = resolution_issues-nil steps i gap.key gap.resolution h

answerable :
    (steps : List DecisionNextStep) (i : ℕ) (gaps : List CriticalGap)
    → AllFrom (λ j gap. open_gap_issues steps j gap ≡ []) i gaps
    → All (IsAnswerable steps) gaps
answerable steps i [] h = tt
answerable steps i (gap ∷ gaps) (h, t) =
    (open_gap_issues-IsAnswerable steps i gap h, answerable steps _ gaps t)

-- What NEED_MORE_INFO is accepted with.
pub need_more_info_issues-IsOpen :
    (decision : DecisionRevision)
    → decision.status ≡ need_more_info
    → need_more_info_issues decision ≡ []
    → IsOpen decision
unfolding need_more_info_issues
need_more_info_issues-IsOpen decision asked h =
    let (a, t) = nil-parts _ _ h in
    let (b, u) = nil-parts _ _ t in
    let (c, d) = nil-parts _ _ u in
    let gaps = issue_if-nil _ _ _ a in
    let none_selected = issue_if-nil _ _ _ b in
    let none_disposed = issue_if-nil _ _ _ c in
    record {
      unselected = is_none-true _ (ground (arith, none_selected, asked));
      undisposed = length-nil _ (ground (arith, none_disposed, asked));
      gapped = length-cons _ (ground (arith, gaps, asked));
      answerable = answerable decision.next_steps 0 decision.critical_gaps (
          (flat_map_from-eq-nil (open_gap_issues decision.next_steps) 0 decision.critical_gaps).0 (
            subst
              (λ x.
                (if x
                  then flat_map_from (open_gap_issues decision.next_steps) 0 decision.critical_gaps
                  else [])
                ≡ [])
              (ap is_need_more_info asked) d));
    }

-- A budget that is not confirmed is asked for.
pub unconfirmed_budget_issues-nil :
    (requirement : RequirementRevision) (decision : DecisionRevision)
    → budget_needs_confirmation requirement ≡ true
    → unconfirmed_budget_issues requirement decision ≡ []
    → (decision.status ≡ need_more_info)
      × (Any (λ gap. gap.key ≡ budget_key) decision.critical_gaps
          × Any (λ step. asks_for budget_key step ≡ true) decision.next_steps)
unfolding unconfirmed_budget_issues
unconfirmed_budget_issues-nil requirement decision open_ h =
    let checks = subst (λ b. (if b then all_checks else []) ≡ []) open_ h in
    let (a, t) = nil-parts status_check _ checks in
    let (_, u) = nil-parts selected_check _ t in
    let (c, d) = nil-parts gap_check step_check u in
    (
      asks_more decision.status (issue_if-not-nil _ _ _ a),
      (
        Any-map (λ gap k. (eq_iff gap.key budget_key).0 k) decision.critical_gaps
            ((any_iff _ _).0 (issue_if-not-nil _ _ _ c)),
        (any_iff _ _).0 (issue_if-not-nil _ _ _ d),
      ),
    )
  where
    status_check : List ContractIssue
    status_check =
        issue_if (not (is_need_more_info decision.status)) (decision_path "status")
          "预算上限未确认时必须返回 NEED_MORE_INFO"

    selected_check : List ContractIssue
    selected_check =
        issue_if (not (is_none decision.selected_candidate_id))
          (decision_path "selectedCandidateId") "预算上限未确认时不能选择 Candidate"

    gap_check : List ContractIssue
    gap_check =
        issue_if (not (any (λ gap. gap.key == budget_key) decision.critical_gaps))
          (decision_path "criticalGaps") "预算上限未确认时必须保留对应 Critical Gap"

    step_check : List ContractIssue
    step_check =
        issue_if (not (any (asks_for budget_key) decision.next_steps)) (decision_path "nextSteps")
          "预算上限未确认时必须要求用户补充预算"

    all_checks : List ContractIssue
    all_checks = status_check ++ (selected_check ++ (gap_check ++ step_check))

    asks_more : (s : DecisionStatus) → is_need_more_info s ≡ true → s ≡ need_more_info
    asks_more s k = ground (arith, k)
