-- ===== src/Contract/Basis/Checks/Eliminated.antt =====
-- packages/contracts/src/decision/v1/decision-basis.ts: what an accepted decision says of the candidates that
-- it does not select.
use choice_mind.Prelude.{String, ◌≡◌, ◌≢◌, ◌⊎◌, [], map, some, All}
use choice_mind.Js.Sets.{In}
use choice_mind.Contract.Types.{DecisionBundle, need_more_info}
use choice_mind.Contract.Basis.Graph.{evidence_graph}
use choice_mind.Contract.Basis.Eliminations.Eliminated.{
  IsEliminated, validate_eliminations-IsEliminated,
}
use choice_mind.Contract.Basis.Checks.{check_decision_basis}
use choice_mind.Contract.Basis.Checks.Accepted.{eliminations-nil}

-- Every disposition of an accepted decision is of a known candidate that is not selected and violates the hard
-- constraint that it names, by an assessment of which the disposition gives evidence; and unless the decision
-- asks for more information, every candidate of the bundle is the selected one or has a disposition.
pub accepted-eliminations :
    (decision_task_id : String) (bundle : DecisionBundle)
    → check_decision_basis decision_task_id bundle ≡ []
    → All
        (IsEliminated
          (evidence_graph decision_task_id bundle)
          bundle.requirement_revision
          bundle.decision)
        bundle.decision.candidate_dispositions
      × (bundle.decision.status ≢ need_more_info
          → All
              (λ c.
                (bundle.decision.selected_candidate_id ≡ some c.candidate_id)
                ⊎ In c.candidate_id
                    (map (λ d. d.candidate_id) bundle.decision.candidate_dispositions))
              bundle.candidates)
accepted-eliminations decision_task_id bundle h =
    validate_eliminations-IsEliminated (evidence_graph decision_task_id bundle)
      bundle.requirement_revision bundle.decision bundle.candidates
      (eliminations-nil decision_task_id bundle h)
