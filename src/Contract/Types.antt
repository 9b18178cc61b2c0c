-- ===== src/Contract/Types.antt =====
-- packages/contracts/src/decision/v1/index.ts: the contract types. Fields whose type is a single literal
-- (`contractType`, `contractVersion`, `synthetic`, the market) hold no information and are left out.
-- A `number` of the contract is nonnegative and finite. Amounts of money, revisions and sequences are whole;
-- a quantity is counted in units of 2^-1074, of which every such double is a whole number, as the code
-- only compares quantities with each other.
use choice_mind.Prelude.{ℕ, String, Bool, List, Option}

-- A UTC text and the milliseconds that `Date.parse` reads from it, counted from 1970.
pub record Timestamp : Type 0 where
  pub text : String
  pub millis : ℕ

pub data Currency : Type 0 where
  cny : Currency

pub record Quantity : Type 0 where
  pub amount : ℕ
  pub unit : String

pub data ConstraintOperator : Type 0 where
  at_least at_most equals : ConstraintOperator

pub record RequirementConstraint : Type 0 where
  pub key : String
  pub operator : ConstraintOperator
  pub value : Quantity

pub record Budget : Type 0 where
  pub confirmed : Bool
  pub currency : Currency
  pub hard : Bool
  pub max_amount_minor : ℕ

pub record RequirementRevision : Type 0 where
  pub requirement_revision_id : String
  pub decision_task_id : String
  pub revision : ℕ
  pub submitted_text : String
  pub intended_uses : List String
  pub budget : Option Budget
  pub must_haves : List RequirementConstraint
  pub nice_to_haves : List String
  pub must_not_haves : List String
  pub unknowns : List String

pub record CandidateIdentity : Type 0 where
  pub model : String
  pub sku : String
  pub configuration : String

pub record ObservedPrice : Type 0 where
  pub amount_minor : ℕ
  pub currency : Currency
  pub observed_at : Timestamp

pub record Candidate : Type 0 where
  pub candidate_id : String
  pub decision_task_id : String
  pub display_name : String
  pub identity : CandidateIdentity
  pub observed_price : ObservedPrice

pub data ClaimValue : Type 0 where
  money : ℕ → Currency → ClaimValue
  quantity : ℕ → String → ClaimValue
  boolean : Bool → ClaimValue
  text : String → ClaimValue

pub data ClaimKind : Type 0 where
  fact_assertion source_opinion system_inference : ClaimKind

pub record Claim : Type 0 where
  pub claim_id : String
  pub decision_task_id : String
  pub subject_id : String
  pub predicate : String
  pub value : ClaimValue
  pub claim_kind : ClaimKind

pub data EvidenceSource : Type 0 where
  synthetic : (source_id title : String) → EvidenceSource
  public_web :
      (source_id title url excerpt_digest parser_version raw_digest : String) → EvidenceSource

pub record Evidence : Type 0 where
  pub evidence_id : String
  pub decision_task_id : String
  pub source : EvidenceSource
  pub captured_at : Timestamp
  pub locator_section : String
  pub locator_field : String
  pub excerpt : String
  pub valid_until : Timestamp

pub data LinkDirection : Type 0 where
  supports refutes : LinkDirection

pub record ClaimEvidenceLink : Type 0 where
  pub link_id : String
  pub decision_task_id : String
  pub claim_id : String
  pub evidence_id : String
  pub direction : LinkDirection

pub data EvidenceState : Type 0 where
  supported refuted conflicted insufficient : EvidenceState

pub record ClaimAssessment : Type 0 where
  pub claim_id : String
  pub evidence_state : EvidenceState
  pub supporting_evidence_ids : List String
  pub refuting_evidence_ids : List String

pub data ConditionKind : Type 0 where
  max_price : (amount_minor : ℕ) → Currency → ConditionKind
  official_warranty : ConditionKind

pub record DecisionCondition : Type 0 where
  pub condition_id : String
  pub condition_type : ConditionKind
  pub candidate_id : String
  pub verification : String

pub record CandidateDisposition : Type 0 where
  pub disposition_id : String
  pub candidate_id : String
  pub requirement_key : String
  pub reason : String
  pub evidence_ids : List String

pub record DecisionRisk : Type 0 where
  pub risk_id : String
  pub candidate_id : String
  pub statement_claim_id : String
  pub verification : String

pub data CriticalGapResolution : Type 0 where
  verify_condition : (condition_id : String) → CriticalGapResolution
  provide_requirement : (requirement_key : String) → CriticalGapResolution

pub record CriticalGap : Type 0 where
  pub gap_id : String
  pub key : String
  pub question : String
  pub resolution : CriticalGapResolution

pub data NextStepAction : Type 0 where
  provide_requirement : (requirement_key : String) → NextStepAction
  verify_condition : (condition_id : String) → NextStepAction
  verify_risk : (risk_id : String) → NextStepAction

pub record DecisionNextStep : Type 0 where
  pub action : NextStepAction
  pub instruction : String

pub data DecisionStatus : Type 0 where
  buy_now buy_if_price wait keep_current need_more_info no_match refuse_risk : DecisionStatus

pub record DecisionRevision : Type 0 where
  pub decision_revision_id : String
  pub decision_task_id : String
  pub requirement_revision_id : String
  pub revision : ℕ
  pub status : DecisionStatus
  pub summary : String
  pub selected_candidate_id : Option String
  pub conditions : List DecisionCondition
  pub candidate_dispositions : List CandidateDisposition
  pub risks : List DecisionRisk
  pub evidence_ids : List String
  pub critical_gaps : List CriticalGap
  pub assumptions : List String
  pub valid_from : Timestamp
  pub valid_until : Timestamp
  pub next_steps : List DecisionNextStep

pub data TaskState : Type 0 where
  created understanding planning researching verifying gap_research comparing : TaskState
  critiquing generating paused_user paused_permission paused_source_login : TaskState
  paused_limit completed failed cancelled : TaskState

pub data EventType : Type 0 where
  task_state_changed runtime_succeeded runtime_failed : EventType

pub record RunEvent : Type 0 where
  pub event_id : String
  pub decision_task_id : String
  pub agent_run_id : String
  pub sequence : ℕ
  pub occurred_at : Timestamp
  pub event_type : EventType
  pub task_state : TaskState
  pub summary : String

pub data PathPart : Type 0 where
  name : String → PathPart
  index : ℕ → PathPart

-- A path is kept as its parts, which the source joins with dots.
pub record ContractIssue : Type 0 where
  pub path : List PathPart
  pub message : String

-- `terminal` is true of both kinds of status.
pub record CompletedTaskStatus : Type 0 where
  pub decision_task_id : String
  pub agent_run_id : String
  pub latest_event_sequence : ℕ
  pub decision_revision_id : String
  pub updated_at : Timestamp

pub record FailedTaskStatus : Type 0 where
  pub decision_task_id : String
  pub agent_run_id : String
  pub latest_event_sequence : ℕ
  pub error_id : String
  pub updated_at : Timestamp

pub data RetryMode : Type 0 where
  none_allowed same_execution_only new_execution_allowed : RetryMode

pub data ErrorCode : Type 0 where
  contract_invalid contract_version_unsupported agent_runtime_failed : ErrorCode
  decision_execution_status_unknown decision_task_not_found idempotency_conflict : ErrorCode
  persistence_unavailable : ErrorCode

pub data ErrorCategory : Type 0 where
  validation version runtime transport resource storage : ErrorCategory

pub record ChoiceMindError : Type 0 where
  pub error_id : String
  pub code : ErrorCode
  pub category : ErrorCategory
  pub message : String
  pub retry_mode : RetryMode
  pub issues : List ContractIssue
  pub occurred_at : String

pub record DecisionBundle : Type 0 where
  pub requirement_revision : RequirementRevision
  pub candidates : List Candidate
  pub claims : List Claim
  pub evidence : List Evidence
  pub claim_evidence_links : List ClaimEvidenceLink
  pub claim_assessments : List ClaimAssessment
  pub decision : DecisionRevision

pub record SuccessfulResult : Type 0 where
  pub task_status : CompletedTaskStatus
  pub run_events : List RunEvent
  pub bundle : DecisionBundle

pub record FailedResult : Type 0 where
  pub task_status : FailedTaskStatus
  pub run_events : List RunEvent
  pub error : ChoiceMindError

pub data DecisionTaskResult : Type 0 where
  successful : SuccessfulResult → DecisionTaskResult
  failed : FailedResult → DecisionTaskResult
  rejected : ChoiceMindError → DecisionTaskResult
