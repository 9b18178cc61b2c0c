-- ===== src/Contract/Result/Invariants/Accepted.antt =====
-- packages/contracts/src/decision/v1/invariants.ts: what a successful result that the invariants accept
-- promises its reader.
use choice_mind.Prelude.{
  ◌≡◌, ◌≢◌, ◌⊎◌, inl, inr, true, false, ◌&&◌, List, [], ◌∷◌, arith, eqb, length, All, Any,
}
use choice_mind.Contract.Types.{
  DecisionStatus, buy_if_price, need_more_info, DecisionRevision, DecisionCondition,
  SuccessfulResult, successful,
}
use choice_mind.Contract.Issues.{issue_if-nil, nil-parts}
use choice_mind.Contract.Statuses.{is_buy_if_price}
use choice_mind.Contract.Basis.Constraints.{budget_key}
use choice_mind.Contract.Basis.Checks.{check_decision_basis}
use choice_mind.Contract.Result.RunEvents.{run_event_issues, success_event_issues}
use choice_mind.Contract.Result.Decisions.{
  asks_for, budget_needs_confirmation, status_issues, reference_issues, unconfirmed_budget_issues,
  need_more_info_issues, buy_if_price_gap_issues,
}
use choice_mind.Contract.Result.Decisions.Open.{
  IsOpen, need_more_info_issues-IsOpen, unconfirmed_budget_issues-nil,
}
use choice_mind.Contract.Result.Conditions.{no_match_issues, all_condition_issues, next_step_issues}
use choice_mind.Contract.Result.Conditions.Priced.{IsSound, all_condition_issues-IsSound}
use choice_mind.Contract.Result.Invariants.{
  buy_issues, successful_issues, check_decision_task_result_invariants,
}

-- The checks of an accepted result that the theorems below read.
record AcceptedParts (result : SuccessfulResult) : Type 0 where
  status_ok : status_issues result.bundle.decision.status ≡ []
  budget_ok :
      unconfirmed_budget_issues result.bundle.requirement_revision result.bundle.decision ≡ []
  open_ok : need_more_info_issues result.bundle.decision ≡ []
  conditions_ok : all_condition_issues result.bundle ≡ []
  buy_ok : buy_issues result.bundle.decision ≡ []
  basis_ok : check_decision_basis result.task_status.decision_task_id result.bundle ≡ []

accepted_parts :
    (result : SuccessfulResult)
    → check_decision_task_result_invariants (successful result) ≡ []
    → AcceptedParts result
unfolding check_decision_task_result_invariants successful_issues
accepted_parts result h =
    let status = result.task_status in
    let bundle = result.bundle in
    let decision = bundle.decision in
    let (_, t1) =
      nil-parts
        (run_event_issues status.decision_task_id status.agent_run_id status.latest_event_sequence
          status.updated_at result.run_events)
        _ h in
    let (_, t2) = nil-parts (success_event_issues result.run_events) _ t1 in
    let (a, t3) = nil-parts (status_issues decision.status) _ t2 in
    let (_, t4) = nil-parts (reference_issues status bundle) _ t3 in
    let (b, t5) = nil-parts (unconfirmed_budget_issues bundle.requirement_revision decision) _ t4 in
    let (c, t6) = nil-parts (need_more_info_issues decision) _ t5 in
    let (_, t7) = nil-parts (no_match_issues decision) _ t6 in
    let (d, t8) = nil-parts (all_condition_issues bundle) _ t7 in
    let (_, t9) = nil-parts (buy_if_price_gap_issues decision) _ t8 in
    let (_, t10) = nil-parts (next_step_issues decision) _ t9 in
    let (e, f) =
      nil-parts (buy_issues decision) (check_decision_basis status.decision_task_id bundle) t10 in
    record {
      status_ok = a;
      budget_ok = b;
      open_ok = c;
      conditions_ok = d;
      buy_ok = e;
      basis_ok = f;
    }

-- The decision basis of an accepted result is accepted.
pub accepted-basis :
    (result : SuccessfulResult)
    → check_decision_task_result_invariants (successful result) ≡ []
    → check_decision_basis result.task_status.decision_task_id result.bundle ≡ []
accepted-basis result h = (accepted_parts result h).basis_ok

status_issues-nil :
    (s : DecisionStatus) → status_issues s ≡ [] → (s ≡ buy_if_price) ⊎ (s ≡ need_more_info)
unfolding status_issues
status_issues-nil s h = let k = issue_if-nil _ _ _ h in ground (arith, k)

buy_issues-conditions :
    (decision : DecisionRevision)
    → buy_issues decision ≡ []
    → decision.status ≡ buy_if_price
    → decision.conditions ≢ []
unfolding buy_issues
buy_issues-conditions decision h s =
    let (a, _) = nil-parts _ _ h in some_condition decision.conditions (issue_if-nil _ _ _ a)
  where
    some_condition :
        (cs : List DecisionCondition)
        → (is_buy_if_price decision.status && eqb (length cs) 0) ≡ false
        → cs ≢ []
    some_condition [] k l = ground (arith, k, s)
    some_condition (c ∷ cs) k l = cc l

-- An accepted successful result decides on a purchase at a price or asks a question. Each of its
-- conditions is about the selected candidate, which the bundle has, sets no price above a hard budget,
-- and has a next step that verifies it. A purchase has at least one condition; a question selects and
-- eliminates nothing, and has gaps, each of which its own requirement closes and a next step asks for.
pub accepted-decision :
    (result : SuccessfulResult)
    → check_decision_task_result_invariants (successful result) ≡ []
    → let decision = result.bundle.decision in
      All (IsSound result.bundle) decision.conditions
      × (((decision.status ≡ buy_if_price) × (decision.conditions ≢ []))
          ⊎ ((decision.status ≡ need_more_info) × IsOpen decision))
accepted-decision result h =
    let parts = accepted_parts result h in
    let decision = result.bundle.decision in
    (
      all_condition_issues-IsSound result.bundle parts.conditions_ok,
      elim (status_issues-nil decision.status parts.status_ok) [
        | inl s ↦ inl (s, buy_issues-conditions decision parts.buy_ok s)
        | inr s ↦ inr (s, need_more_info_issues-IsOpen decision s parts.open_ok)
      ],
    )

-- While the budget is not confirmed, an accepted result is a question that selects nothing, names the budget as
-- a gap, and asks for it.
pub accepted-unconfirmed_budget :
    (result : SuccessfulResult)
    → check_decision_task_result_invariants (successful result) ≡ []
    → budget_needs_confirmation result.bundle.requirement_revision ≡ true
    → let decision = result.bundle.decision in
      (decision.status ≡ need_more_info)
      × (IsOpen decision
          × (Any (λ gap. gap.key ≡ budget_key) decision.critical_gaps
              × Any (λ step. asks_for budget_key step ≡ true) decision.next_steps))
accepted-unconfirmed_budget result h unconfirmed =
    let parts = accepted_parts result h in
    let decision = result.bundle.decision in
    let (s, asked) = unconfirmed_budget_issues-nil _ decision unconfirmed parts.budget_ok in
    (s, (need_more_info_issues-IsOpen decision s parts.open_ok, asked))
