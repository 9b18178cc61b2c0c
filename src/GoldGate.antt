-- ===== src/GoldGate.antt =====
-- packages/p0-gold-gate/src/index.ts: `evaluateP0GoldGate`, which gathers
-- the gates of a release into one verdict and an index of their evidence.
pub mod Verdict
pub mod Tests
use Prim.Native.String.{◌++◌ as ◌+text◌}
use choice_mind.Prelude.{
  ℕ, String, Bool, true, false, not, ◌&&◌, List, [], ◌∷◌, ◌++◌, map, Option, none, some,
  if◌then◌else◌, ◌==◌, eqb, length, any, all, select,
}
use choice_mind.Js.Equality.{text_equality}
use choice_mind.Js.Sets.{has, set_of}
use choice_mind.Js.Maps.{get, set}
use choice_mind.Contract.Statuses.{is_none}

pub data GateStatus : Type 0 where
  passed failed : GateStatus

pub record GateEvidence : Type 0 where
  pub evidence_id : String
  pub locator : String

pub record GateResult : Type 0 where
  pub gate_id : String
  pub status : GateStatus
  pub evidence : List GateEvidence

pub record ServiceSmoke : Type 0 where
  pub service_id : String
  pub status : GateStatus

pub record LocalServiceSmoke : Type 0 where
  pub status : GateStatus
  pub executed_at : String
  pub services : List ServiceSmoke

pub record EvaluationReport : Type 0 where
  pub status : GateStatus
  pub executed_at : String
  pub baseline_commit : String
  pub gates : List GateResult
  pub blocking_failures : List String

pub record IndexEntry : Type 0 where
  pub evidence_id : String
  pub locator : String
  pub gate_id : String

pub record EvidenceIndex : Type 0 where
  pub generated_at : String
  pub entries : List IndexEntry

pub record GoldGateInput : Type 0 where
  pub executed_at : String
  pub baseline_commit : String
  pub core_modified_files : List String
  pub gate_results : List GateResult
  pub local_service_report : LocalServiceSmoke

pub record GoldGateEvaluation : Type 0 where
  pub report : EvaluationReport
  pub evidence_index : EvidenceIndex

abbrev pub is_passed : GateStatus → Bool
is_passed passed = true
is_passed failed = false

abbrev pub passed_if : Bool → GateStatus
passed_if true = passed
passed_if false = failed

unfoldable pub core_gate : List String → GateResult
core_gate files = record {
  gate_id = "core-category-independence";
  status = passed_if (eqb (length files) 0);
  evidence = map (λ file. record { evidence_id = "core-diff:" +text file; locator = file }) files;
}

unfoldable pub required_services : List String
required_services =
    "qwen-model" ∷ "qwen-embedding" ∷ "qwen-reranker" ∷ "paddleocr-vl" ∷ "mineru"
    ∷ "choicemind-html-parser" ∷ []

-- As many services as are required, no two alike, and every required one among them.
unfoldable pub has_exact_service_set : List ServiceSmoke → Bool
has_exact_service_set services =
    let reported = set_of (map (λ s. s.service_id) services) in
    eqb (length services) (length required_services)
    && (eqb (length reported) (length required_services) && all (has reported) required_services)

unfoldable pub service_gate : LocalServiceSmoke → GateResult
unfolding has_exact_service_set
service_gate report = record {
  gate_id = "local-service-contracts";
  status = passed_if (
      is_passed report.status
      && (has_exact_service_set report.services && all (λ s. is_passed s.status) report.services));
  evidence =
      map
        (λ s. record {
          evidence_id = "local-service:" +text s.service_id;
          locator = "local-service-smoke:" +text s.service_id;
        })
        report.services
      ++ map
          (λ id. record {
            evidence_id = "local-service:" +text (id +text ":missing");
            locator = "local-service-smoke:missing:" +text id;
          })
          (select (λ id. not (any (λ s. s.service_id == id) report.services)) required_services);
}

-- `gates.flatMap`: the evidence of each gate, under the gate's id.
index_entries : List GateResult → List IndexEntry
index_entries [] = []
index_entries (gate ∷ gates) =
    map
      (λ entry. record {
        evidence_id = entry.evidence_id;
        locator = entry.locator;
        gate_id = gate.gate_id;
      })
      gate.evidence
    ++ index_entries gates

abbrev pub all_gates : GoldGateInput → List GateResult
all_gates input =
    input.gate_results
    ++ core_gate input.core_modified_files ∷ service_gate input.local_service_report ∷ []

unfoldable pub evaluate_p0_gold_gate : GoldGateInput → GoldGateEvaluation
unfolding index_entries
evaluate_p0_gold_gate input =
    let gates = all_gates input in
    let blocking = map (λ g. g.gate_id) (select (λ g. not (is_passed g.status)) gates) in
    record {
      report = record {
        status = passed_if (eqb (length blocking) 0);
        executed_at = input.executed_at;
        baseline_commit = input.baseline_commit;
        gates = gates;
        blocking_failures = blocking;
      };
      evidence_index = record { generated_at = input.executed_at; entries = index_entries gates };
    }
