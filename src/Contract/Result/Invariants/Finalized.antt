-- ===== src/Contract/Result/Invariants/Finalized.antt =====
-- packages/contracts/src/decision/v1/index.ts: `finalizeSuccessfulDecisionTaskResultV1` against
-- `decodeDecisionTaskResultV1`.
use choice_mind.Prelude.{◌≡◌, refl, sym, ap, subst, List, [], ◌∷◌}
use choice_mind.Contract.Types.{SuccessfulResult, successful, ContractIssue}
use choice_mind.Contract.Basis.Graph.{evaluate_decision_basis_with_graph}
use choice_mind.Contract.Result.Invariants.{
  decoded, decode_checked, decode_decision_task_result, finalize_evaluated,
  finalize_successful_decision_task_result, check_decision_task_result_invariants,
}

-- The draft with the assessments that its evaluation derives.
abbrev pub with_assessments : SuccessfulResult → SuccessfulResult
with_assessments draft =
    let evaluation =
      evaluate_decision_basis_with_graph draft.task_status.decision_task_id draft.bundle in
    record draft {
      bundle = record (draft.bundle) { claim_assessments = evaluation.claim_assessments };
    }

decode_checked-decoded :
    {T : Type 0} (value r : T) (issues : List ContractIssue)
    → decode_checked value issues ≡ decoded r
    → (value ≡ r) × (issues ≡ [])
unfolding decode_checked
decode_checked-decoded value r [] h = (cc h, refl)
decode_checked-decoded value r (i ∷ is) h = cc h

finalize_evaluated-decoded :
    (value r : SuccessfulResult) (issues : List ContractIssue)
    → finalize_evaluated value issues ≡ decoded r
    → (value ≡ r) × (check_decision_task_result_invariants (successful value) ≡ [])
unfolding finalize_evaluated
finalize_evaluated-decoded value r [] h =
    decode_checked-decoded value r (check_decision_task_result_invariants (successful value)) h
finalize_evaluated-decoded value r (i ∷ is) h = cc h

-- What finalizing answers is the draft with its assessments derived, and decoding accepts it unchanged.
pub finalize-decode :
    (draft result : SuccessfulResult)
    → finalize_successful_decision_task_result draft ≡ decoded result
    → (result ≡ with_assessments draft)
      × (decode_decision_task_result (successful result) ≡ decoded (successful result))
unfolding finalize_successful_decision_task_result decode_decision_task_result decode_checked
finalize-decode draft result h =
    let evaluation =
      evaluate_decision_basis_with_graph draft.task_status.decision_task_id draft.bundle in
    let (same, accepted) =
      finalize_evaluated-decoded (with_assessments draft) result evaluation.issues h in
    let clean =
      subst (λ v. check_decision_task_result_invariants (successful v) ≡ []) same accepted in
    (sym same, ap (decode_checked (successful result)) clean)
