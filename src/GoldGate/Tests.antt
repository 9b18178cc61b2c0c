-- ===== src/GoldGate/Tests.antt =====
-- packages/p0-gold-gate/src/index.ts: the verdict over a sample report.
use choice_mind.Prelude.{String, ◌≡◌, refl, ◌↔◌, [], ◌∷◌, All}
use choice_mind.Js.Sets.{add, add_all}
use choice_mind.GoldGate.{
  passed, ServiceSmoke, LocalServiceSmoke, GoldGateInput, core_gate, required_services,
  has_exact_service_set, service_gate, evaluate_p0_gold_gate,
}
use choice_mind.GoldGate.Verdict.{IsCompleteSmoke, evaluate_p0_gold_gate-passed_iff}

abbrev smoke : String → ServiceSmoke
smoke id = record { service_id = id; status = passed }

abbrev complete : LocalServiceSmoke
complete = record {
  status = passed;
  executed_at = "now";
  services =
      smoke "mineru"
      ∷ smoke "qwen-model"
      ∷ smoke "qwen-embedding"
      ∷ smoke "qwen-reranker"
      ∷ smoke "paddleocr-vl"
      ∷ smoke "choicemind-html-parser"
      ∷ [];
}

abbrev release : GoldGateInput
release = record {
  executed_at = "now";
  baseline_commit = "c0";
  core_modified_files = [];
  gate_results = record { gate_id = "unit"; status = passed; evidence = [] } ∷ [];
  local_service_report = complete;
}

release_passes : (evaluate_p0_gold_gate release).report.status ≡ passed
unfolding evaluate_p0_gold_gate core_gate service_gate has_exact_service_set required_services add
    add_all
release_passes = refl

-- A change of the core blocks the release.
touched_core_fails :
    (evaluate_p0_gold_gate
      (record release { core_modified_files = "core.ts" ∷ [] })).report.blocking_failures
    ≡ "core-category-independence" ∷ []
unfolding evaluate_p0_gold_gate core_gate service_gate has_exact_service_set required_services add
    add_all
touched_core_fails = refl

evaluate_p0_gold_gate-passed_iff_example :
    ((evaluate_p0_gold_gate release).report.status ≡ passed) ↔ (
      All (λ g. g.status ≡ passed) release.gate_results
      × ((release.core_modified_files ≡ []) × IsCompleteSmoke complete))
evaluate_p0_gold_gate-passed_iff_example = evaluate_p0_gold_gate-passed_iff release
