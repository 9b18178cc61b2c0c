-- ===== src/Contract/Tests.antt =====
-- packages/contracts/src/decision/v1: a result with one candidate, run through the checks.
pub mod Basis
pub mod Results
pub mod Recovery
use choice_mind.Prelude.{
  ℕ, String, ◌≡◌, refl, Bool, true, false, List, [], ◌∷◌, ◌++◌, Option, none, some, Any, All, inl,
  inr,
}
use choice_mind.Contract.Types.{
  Timestamp, Currency, cny, Quantity, at_least, RequirementConstraint, Budget, RequirementRevision,
  Candidate, ClaimValue, money, quantity, fact_assertion, Claim, EvidenceSource, synthetic,
  Evidence, ClaimEvidenceLink, supports, supported, ClaimAssessment, max_price, DecisionCondition,
  NextStepAction, DecisionNextStep, buy_if_price, need_more_info, CriticalGap,
  CriticalGapResolution, DecisionRevision, created, completed, task_state_changed,
  runtime_succeeded, RunEvent, CompletedTaskStatus, DecisionBundle, SuccessfulResult,
  DecisionTaskResult, successful, ContractIssue,
}
use choice_mind.Contract.Issues.{issue_if, collect_unique_ids}
use choice_mind.Js.Maps.{get, set, index_by, group_by}
use choice_mind.Js.Sets.{add, add_all}
use choice_mind.Js.Sorting.{insert_by, sort_by, text_lt}
use choice_mind.Contract.Basis.Graph.{
  nul_key, is_current, derive_claim_assessment, structure_issues, evidence_by_id, links_by_claim_id,
  derived_assessments, evidence_graph, evaluate_decision_basis_with_graph, assess_claim,
}
use choice_mind.Contract.Basis.Constraints.{
  assess_disposition_constraint, violated, fact_claims, trusted_fact, collect_trusted_claim_values,
  get_only_value, assess_values, read_money, assess_candidate_budget_constraint, read_quantity,
  assess_candidate_constraint, hard_budget,
}
use choice_mind.Contract.Basis.Assessments.{validate_canonical_assessments}
use choice_mind.Contract.Basis.Selection.{validate_selected_candidate_basis}
use choice_mind.Contract.Basis.Eliminations.{
  validate_eliminations, hard_constraint_keys, proves_violation,
}
use choice_mind.Contract.Basis.Checks.{
  validate_risk_claim_basis, closure_issues, selected_candidate, validate_decision_evidence_closure,
  graph_issues, check_decision_basis,
}
use choice_mind.Contract.Result.RunEvents.{
  authoritative_index, run_event_issues, success_event_issues,
}
use choice_mind.Contract.Result.Decisions.{
  status_issues, reference_issues, budget_needs_confirmation, unconfirmed_budget_issues,
  need_more_info_issues, buy_if_price_gap_issues,
}
use choice_mind.Contract.Result.Conditions.{
  no_match_issues, exceeds, all_condition_issues, next_step_issues,
}
use choice_mind.Contract.Result.Invariants.{
  buy_issues, successful_issues, check_decision_task_result_invariants, Decoded, decoded,
  decode_checked, finalize_successful_decision_task_result,
}
use choice_mind.Contract.Basis.Checks.Accepted.{check_decision_basis-eq-nil}
use choice_mind.Contract.Result.Invariants.Accepted.{accepted-basis}

abbrev pub at : ℕ → Timestamp
at n = record { text = "1970-01-01T00:00:00Z"; millis = n }

abbrev pub memory : RequirementConstraint
memory = record { key = "memory"; operator = at_least; value = record { amount = 32; unit = "GB" } }

abbrev pub limit : Budget
limit = record { confirmed = true; currency = cny; hard = true; max_amount_minor = 800000 }

abbrev pub requirement : RequirementRevision
requirement = record {
  requirement_revision_id = "r1";
  decision_task_id = "t1";
  revision = 1;
  submitted_text = "laptop";
  intended_uses = [];
  budget = some limit;
  must_haves = memory ∷ [];
  nice_to_haves = [];
  must_not_haves = [];
  unknowns = [];
}

abbrev pub laptop : Candidate
laptop = record {
  candidate_id = "c1";
  decision_task_id = "t1";
  display_name = "Laptop";
  identity = record { model = "L"; sku = "L-1"; configuration = "32 GB" };
  observed_price = record { amount_minor = 750000; currency = cny; observed_at = at 100 };
}

-- It has too little memory.
abbrev tablet : Candidate
tablet = record laptop { candidate_id = "c2"; display_name = "Tablet" }

abbrev pub price_claim : Claim
price_claim = record {
  claim_id = "k1";
  decision_task_id = "t1";
  subject_id = "c1";
  predicate = "price.observed";
  value = money 750000 cny;
  claim_kind = fact_assertion;
}

abbrev pub memory_claim : Claim
memory_claim = record price_claim {
  claim_id = "k2";
  predicate = "memory";
  value = quantity 32 "GB";
}

abbrev tablet_claim : Claim
tablet_claim = record memory_claim { claim_id = "k3"; subject_id = "c2"; value = quantity 16 "GB" }

abbrev pub page : Evidence
page = record {
  evidence_id = "e1";
  decision_task_id = "t1";
  source = synthetic "s1" "Catalog";
  captured_at = at 100;
  locator_section = "specs";
  locator_field = "memory";
  excerpt = "32 GB, 7500.00";
  valid_until = at 1000;
}

abbrev pub price_link : ClaimEvidenceLink
price_link = record {
  link_id = "l1";
  decision_task_id = "t1";
  claim_id = "k1";
  evidence_id = "e1";
  direction = supports;
}

abbrev pub memory_link : ClaimEvidenceLink
memory_link = record price_link { link_id = "l2"; claim_id = "k2" }

abbrev tablet_link : ClaimEvidenceLink
tablet_link = record price_link { link_id = "l3"; claim_id = "k3" }

abbrev pub supported_by_page : String → ClaimAssessment
supported_by_page id = record {
  claim_id = id;
  evidence_state = supported;
  supporting_evidence_ids = "e1" ∷ [];
  refuting_evidence_ids = [];
}

abbrev pub purchase : DecisionRevision
purchase = record {
  decision_revision_id = "d1";
  decision_task_id = "t1";
  requirement_revision_id = "r1";
  revision = 1;
  status = buy_if_price;
  summary = "Buy below 7600.00";
  selected_candidate_id = some "c1";
  conditions =
      record {
        condition_id = "q1";
        condition_type = max_price 760000 cny;
        candidate_id = "c1";
        verification = "price";
      }
      ∷ [];
  candidate_dispositions =
      record {
        disposition_id = "p1";
        candidate_id = "c2";
        requirement_key = "memory";
        reason = "16 GB";
        evidence_ids = "e1" ∷ [];
      }
      ∷ [];
  risks = [];
  evidence_ids = "e1" ∷ [];
  critical_gaps = [];
  assumptions = [];
  valid_from = at 200;
  valid_until = at 900;
  next_steps = record { action = NextStepAction.verify_condition "q1"; instruction = "check" } ∷ [];
}

abbrev pub bundle : DecisionBundle
bundle = record {
  requirement_revision = requirement;
  candidates = laptop ∷ tablet ∷ [];
  claims = price_claim ∷ memory_claim ∷ tablet_claim ∷ [];
  evidence = page ∷ [];
  claim_evidence_links = price_link ∷ memory_link ∷ tablet_link ∷ [];
  claim_assessments = supported_by_page "k1" ∷ supported_by_page "k2" ∷ supported_by_page "k3" ∷ [];
  decision = purchase;
}

abbrev pub run : List RunEvent
run =
    record {
      event_id = "v1";
      decision_task_id = "t1";
      agent_run_id = "a1";
      sequence = 1;
      occurred_at = at 200;
      event_type = task_state_changed;
      task_state = created;
      summary = "created";
    }
    ∷ record {
      event_id = "v2";
      decision_task_id = "t1";
      agent_run_id = "a1";
      sequence = 2;
      occurred_at = at 200;
      event_type = runtime_succeeded;
      task_state = completed;
      summary = "done";
    }
    ∷ []

abbrev pub result : SuccessfulResult
result = record {
  task_status = record {
    decision_task_id = "t1";
    agent_run_id = "a1";
    latest_event_sequence = 2;
    decision_revision_id = "d1";
    updated_at = at 200;
  };
  run_events = run;
  bundle = bundle;
}

-- The checks accept the purchase.
pub accepted : check_decision_task_result_invariants (successful result) ≡ []
unfolding check_decision_task_result_invariants successful_issues run_event_issues
    collect_unique_ids issue_if add success_event_issues status_issues reference_issues
    unconfirmed_budget_issues budget_needs_confirmation need_more_info_issues no_match_issues
    all_condition_issues add_all hard_budget buy_if_price_gap_issues next_step_issues
    validate_canonical_assessments check_decision_basis closure_issues graph_issues
    selected_candidate validate_decision_evidence_closure validate_risk_claim_basis
    assess_candidate_budget_constraint assess_candidate_constraint assess_values
    collect_trusted_claim_values fact_claims get_only_value read_money read_quantity trusted_fact
    hard_constraint_keys validate_eliminations derive_claim_assessment derived_assessments
    evaluate_decision_basis_with_graph evidence_by_id evidence_graph is_current links_by_claim_id
    nul_key structure_issues validate_selected_candidate_basis exceeds buy_issues get group_by
    index_by set insert_by sort_by text_lt authoritative_index proves_violation
    assess_disposition_constraint
accepted = refl

pub basis_accepted : check_decision_basis "t1" bundle ≡ []
basis_accepted = accepted-basis result accepted

pub structure_accepted : structure_issues "t1" bundle ≡ []
structure_accepted = ((check_decision_basis-eq-nil "t1" bundle).0 basis_accepted).0

-- A budget that nobody has confirmed, and the question that it leads to.
abbrev pub unconfirmed_result : SuccessfulResult
unconfirmed_result = record result {
  bundle = record bundle {
    requirement_revision = record requirement { budget = none; must_haves = [] };
    decision = record purchase {
      status = need_more_info;
      selected_candidate_id = none;
      conditions = [];
      candidate_dispositions = [];
      critical_gaps =
          record {
            gap_id = "g1";
            key = "budget.maxAmountMinor";
            question = "How much?";
            resolution = CriticalGapResolution.provide_requirement "budget.maxAmountMinor";
          }
          ∷ [];
      next_steps =
          record {
            action = NextStepAction.provide_requirement "budget.maxAmountMinor";
            instruction = "Say how much";
          }
          ∷ [];
    };
  };
}

pub unconfirmed_accepted :
    check_decision_task_result_invariants (successful unconfirmed_result) ≡ []
unfolding check_decision_task_result_invariants successful_issues run_event_issues
    collect_unique_ids issue_if add success_event_issues status_issues reference_issues
    unconfirmed_budget_issues budget_needs_confirmation need_more_info_issues no_match_issues
    all_condition_issues add_all hard_budget buy_if_price_gap_issues next_step_issues
    validate_canonical_assessments check_decision_basis closure_issues graph_issues
    selected_candidate validate_decision_evidence_closure validate_risk_claim_basis
    assess_candidate_budget_constraint assess_candidate_constraint assess_values
    collect_trusted_claim_values fact_claims get_only_value read_money read_quantity trusted_fact
    hard_constraint_keys validate_eliminations derive_claim_assessment derived_assessments
    evaluate_decision_basis_with_graph evidence_by_id evidence_graph is_current links_by_claim_id
    nul_key structure_issues validate_selected_candidate_basis exceeds buy_issues get group_by
    index_by set insert_by sort_by text_lt authoritative_index proves_violation
    assess_disposition_constraint
unconfirmed_accepted = refl

pub finalized : finalize_successful_decision_task_result result ≡ decoded result
unfolding finalize_successful_decision_task_result decode_checked
    check_decision_task_result_invariants successful_issues run_event_issues collect_unique_ids
    issue_if add success_event_issues status_issues reference_issues unconfirmed_budget_issues
    budget_needs_confirmation need_more_info_issues no_match_issues all_condition_issues add_all
    hard_budget buy_if_price_gap_issues next_step_issues validate_canonical_assessments
    check_decision_basis closure_issues graph_issues selected_candidate
    validate_decision_evidence_closure validate_risk_claim_basis assess_candidate_budget_constraint
    assess_candidate_constraint assess_values collect_trusted_claim_values fact_claims
    get_only_value read_money read_quantity trusted_fact hard_constraint_keys validate_eliminations
    derive_claim_assessment derived_assessments evaluate_decision_basis_with_graph evidence_by_id
    evidence_graph is_current links_by_claim_id nul_key structure_issues
    validate_selected_candidate_basis exceeds buy_issues get group_by index_by set insert_by sort_by
    text_lt authoritative_index proves_violation assess_disposition_constraint
finalized = refl

-- A must-have that is not met is found.
unmet :
    (assess_candidate_constraint "c1"
      (record memory { value = record { amount = 64; unit = "GB" } })
      (evidence_graph "t1" bundle)).status
    ≡ violated
unfolding check_decision_task_result_invariants successful_issues run_event_issues
    collect_unique_ids issue_if add success_event_issues status_issues reference_issues
    unconfirmed_budget_issues budget_needs_confirmation need_more_info_issues no_match_issues
    all_condition_issues add_all hard_budget buy_if_price_gap_issues next_step_issues
    validate_canonical_assessments check_decision_basis closure_issues graph_issues
    selected_candidate validate_decision_evidence_closure validate_risk_claim_basis
    assess_candidate_budget_constraint assess_candidate_constraint assess_values
    collect_trusted_claim_values fact_claims get_only_value read_money read_quantity trusted_fact
    hard_constraint_keys validate_eliminations derive_claim_assessment derived_assessments
    evaluate_decision_basis_with_graph evidence_by_id evidence_graph is_current links_by_claim_id
    nul_key structure_issues validate_selected_candidate_basis exceeds buy_issues get group_by
    index_by set insert_by sort_by text_lt authoritative_index proves_violation
    assess_disposition_constraint
unmet = refl
