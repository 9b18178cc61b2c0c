-- ===== src/Contract/Basis/Constraints.antt =====
-- packages/contracts/src/decision/v1/decision-basis.ts: whether a candidate satisfies a constraint,
-- by the claims about it that the evidence supports.
pub mod Agreement
use choice_mind.Prelude.{
  ℕ, String, Bool, true, false, not, ◌&&◌, List, [], ◌∷◌, ◌++◌, Option, none, some, if◌then◌else◌,
  ◌==◌, leb, eqb, find, select,
}
use choice_mind.Js.Equality.{text_equality, number_equality}
use choice_mind.Js.Sets.{add, add_all}
use choice_mind.Js.Maps.{get, or_empty}
use choice_mind.Contract.Types.{
  Currency, cny, Quantity, ConstraintOperator, at_least, at_most, equals, RequirementConstraint,
  Budget, RequirementRevision, Candidate, Claim, ClaimValue, money, quantity, ClaimKind,
  fact_assertion, EvidenceState, supported, ClaimAssessment,
}
use choice_mind.Contract.Basis.Graph.{EvidenceGraph, nul_key}

pub data ConstraintStatus : Type 0 where
  satisfied violated indeterminate : ConstraintStatus

pub record ConstraintAssessment : Type 0 where
  pub status : ConstraintStatus
  pub supporting_evidence_ids : List String

pub record TrustedClaimValues : Type 0 where
  pub values : List ℕ
  pub supporting_evidence_ids : List String

unfoldable pub create_indeterminate_assessment : ConstraintAssessment
create_indeterminate_assessment = record { status = indeterminate; supporting_evidence_ids = [] }

abbrev pub is_supported : EvidenceState → Bool
is_supported supported = true
is_supported _ = false

abbrev pub is_fact : Claim → Bool
is_fact claim = elim claim.claim_kind [ fact_assertion ↦ true | _ ↦ false ]

abbrev same_currency : Currency → Currency → Bool
same_currency cny cny = true

-- The evidence of a claim's assessment, if it is SUPPORTED.
unfoldable pub supporting_ids : Option ClaimAssessment → Option (List String)
supporting_ids none = none
supporting_ids (some a) =
    if is_supported a.evidence_state then some a.supporting_evidence_ids else none

add_trusted : TrustedClaimValues → ℕ → List String → TrustedClaimValues
add_trusted acc value ids = record {
  values = add acc.values value;
  supporting_evidence_ids = add_all acc.supporting_evidence_ids ids;
}

-- The claims about a candidate under a predicate that assert facts.
unfoldable pub fact_claims : EvidenceGraph → String → String → List Claim
fact_claims graph candidate_id predicate =
    select is_fact
      (or_empty (get graph.claims_by_candidate_and_predicate (nul_key candidate_id predicate)))

-- Both the evidence and the value, or nothing.
with_value : Option (List String) → Option ℕ → Option (ℕ × List String)
with_value none o = none
with_value (some ids) none = none
with_value (some ids) (some value) = some (value, ids)

module _ (graph : EvidenceGraph) (read_value : Claim → Option ℕ) where
  -- The value and the evidence of a fact: none where it cannot be read or is not SUPPORTED.
  unfoldable pub trusted_fact : Claim → Option (ℕ × List String)
  unfolding supporting_ids with_value
  trusted_fact claim =
      with_value (supporting_ids (get graph.claim_assessments_by_id claim.claim_id))
        (read_value claim)

  -- The loop over the facts: one that is not trusted ends it.
  collect_facts : TrustedClaimValues → List Claim → Option TrustedClaimValues
  unfolding trusted_fact add_trusted
  collect_facts acc [] = some acc
  collect_facts acc (claim ∷ claims) = elim (trusted_fact claim) [
    | none ↦ none
    | some (value, ids) ↦ collect_facts (add_trusted acc value ids) claims
  ]

  collect_nonempty : List Claim → Option TrustedClaimValues
  unfolding collect_facts
  collect_nonempty [] = none
  collect_nonempty (claim ∷ claims) =
      collect_facts (record { values = []; supporting_evidence_ids = [] }) (claim ∷ claims)

  unfoldable pub collect_trusted_claim_values : String → String → Option TrustedClaimValues
  unfolding collect_nonempty fact_claims
  collect_trusted_claim_values candidate_id predicate =
      collect_nonempty (fact_claims graph candidate_id predicate)

-- The value of a set of one.
unfoldable pub get_only_value : List ℕ → Option ℕ
get_only_value [] = none
get_only_value (value ∷ []) = some value
get_only_value (value ∷ _ ∷ _) = none

-- The status of the only value there is, if it is a usable one.
assess_only : Option ℕ → List String → (ℕ → Bool) → (ℕ → Bool) → ConstraintAssessment
unfolding create_indeterminate_assessment
assess_only none ids usable holds = create_indeterminate_assessment
assess_only (some value) ids usable holds =
    if usable value
    then record {
      status = if holds value then satisfied else violated;
      supporting_evidence_ids = ids;
    }
    else create_indeterminate_assessment

-- What both assessments do with the values that the claims agree on.
unfoldable pub assess_values :
    Option TrustedClaimValues → (ℕ → Bool) → (ℕ → Bool) → ConstraintAssessment
unfolding get_only_value create_indeterminate_assessment assess_only
assess_values none usable holds = create_indeterminate_assessment
assess_values (some trusted) usable holds =
    assess_only (get_only_value trusted.values) trusted.supporting_evidence_ids usable holds

unfoldable pub read_money : Candidate → Claim → Option ℕ
read_money candidate claim = elim claim.value [
  | money amount_minor currency ↦
      if same_currency currency candidate.observed_price.currency then some amount_minor else none
  | _ ↦ none
]

-- The observed price must be the one that the claims support.
unfoldable pub assess_candidate_budget_constraint :
    Candidate → Budget → EvidenceGraph → ConstraintAssessment
unfolding assess_values
assess_candidate_budget_constraint candidate budget graph =
    assess_values
      (collect_trusted_claim_values graph (read_money candidate) candidate.candidate_id
        "price.observed")
      (λ amount_minor. eqb amount_minor candidate.observed_price.amount_minor)
      (λ amount_minor. leb amount_minor budget.max_amount_minor)

unfoldable pub read_quantity : RequirementConstraint → Claim → Option ℕ
read_quantity constraint claim = elim claim.value [
  | quantity amount unit ↦ if unit == constraint.value.unit then some amount else none
  | _ ↦ none
]

abbrev pub meets : ConstraintOperator → ℕ → ℕ → Bool
meets at_least amount bound = leb bound amount
meets at_most amount bound = leb amount bound
meets equals amount bound = eqb amount bound

unfoldable pub assess_candidate_constraint :
    String → RequirementConstraint → EvidenceGraph → ConstraintAssessment
unfolding assess_values
assess_candidate_constraint candidate_id constraint graph =
    assess_values
      (collect_trusted_claim_values graph (read_quantity constraint) candidate_id constraint.key)
      (λ amount. true) (λ amount. meets constraint.operator amount constraint.value.amount)

-- The budget, if it is confirmed and hard.
unfoldable pub hard_budget : RequirementRevision → Option Budget
hard_budget requirement = elim requirement.budget [
  | none ↦ none
  | some budget ↦ if budget.confirmed && budget.hard then some budget else none
]

abbrev pub budget_key : String
budget_key = "budget.maxAmountMinor"

assess_budget_of : Option Candidate → Option Budget → EvidenceGraph → ConstraintAssessment
assess_budget_of none budget graph = create_indeterminate_assessment
assess_budget_of (some candidate) none graph = create_indeterminate_assessment
assess_budget_of (some candidate) (some budget) graph =
    assess_candidate_budget_constraint candidate budget graph

assess_must_have : String → Option RequirementConstraint → EvidenceGraph → ConstraintAssessment
assess_must_have candidate_id none graph = create_indeterminate_assessment
assess_must_have candidate_id (some constraint) graph =
    assess_candidate_constraint candidate_id constraint graph

unfoldable pub assess_disposition_constraint :
    String → String → RequirementRevision → EvidenceGraph → ConstraintAssessment
unfolding assess_budget_of assess_must_have
assess_disposition_constraint candidate_id requirement_key requirement graph =
    if requirement_key == budget_key
    then assess_budget_of (get graph.candidates_by_id candidate_id) (hard_budget requirement) graph
    else assess_must_have candidate_id
        (find (λ must_have. must_have.key == requirement_key) requirement.must_haves) graph
