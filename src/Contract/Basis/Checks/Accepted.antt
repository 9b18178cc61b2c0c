-- ===== src/Contract/Basis/Checks/Accepted.antt =====
-- packages/contracts/src/decision/v1/decision-basis.ts: what a bundle that `checkDecisionBasisV1` accepts
-- has in its graph.
use choice_mind.Prelude.{
  String, ◌≡◌, refl, sym, ap, subst, ◌∙◌, ◌↔◌, ◌⊎◌, inl, inr, false, not, ◌&&◌, List, [], ◌∷◌, map,
  Option, none, some, arith, ◌==◌, eq_iff, Any, Any-witness, Option-cases,
}
use choice_mind.Js.Equality.{text_equality}
use choice_mind.Js.Sets.{In, Distinct}
use choice_mind.Js.Maps.{get, index_by}
use choice_mind.Js.Maps.Lookup.{get-index_by, find-some}
use choice_mind.Js.Sorting.{sort_by}
use choice_mind.Js.Sorting.Contents.{Any-sort_by}
use choice_mind.Contract.Types.{
  Claim, Candidate, ClaimAssessment, supported, supports, refutes, DecisionBundle, ContractIssue,
  name,
}
use choice_mind.Contract.Issues.{
  nil-parts, issue_if-nil, issue_if, decision_path, collect_unique_ids,
}
use choice_mind.Contract.Statuses.{is_none}
use choice_mind.Contract.Basis.Graph.{
  structure_issues, derived_assessments, evidence_graph, assess_claim, derive_claim_assessment,
  evaluate_decision_basis_with_graph,
}
use choice_mind.Contract.Basis.Graph.Assessed.{
  Backs, Means, assess_claim-Means, structure_issues-Distinct,
}
use choice_mind.Contract.Basis.Eliminations.{validate_eliminations}
use choice_mind.Contract.Basis.Selection.{validate_selected_candidate_basis}
use choice_mind.Contract.Basis.Assessments.{validate_canonical_assessments}
use choice_mind.Contract.Basis.Assessments.Canonical.{validate_canonical_assessments-eq-nil}
use choice_mind.Contract.Basis.Constraints.{supporting_ids}
use choice_mind.Contract.Basis.Constraints.Agreement.{Trusts}
use choice_mind.Contract.Basis.Checks.{
  selected_candidate, graph_issues, evaluation_issues, check_decision_basis,
}

List-cases : {A : Type 0} (xs : List A) → (xs ≡ []) ⊎ ((x : A) × ((ys : List A) × (xs ≡ x ∷ ys)))
List-cases [] = inl refl
List-cases (x ∷ xs) = inr (x, (xs, refl))

module _ (decision_task_id : String) (bundle : DecisionBundle) where
  evaluate_sound :
      structure_issues decision_task_id bundle ≡ []
      → evaluate_decision_basis_with_graph decision_task_id bundle ≡ record {
        claim_assessments = derived_assessments decision_task_id bundle;
        graph = some (evidence_graph decision_task_id bundle);
        issues = [];
      }
  unfolding evaluate_decision_basis_with_graph
  evaluate_sound h = rw (h, evaluate_decision_basis_with_graph) refl

  evaluate_unsound :
      (i : ContractIssue) (is : List ContractIssue)
      → structure_issues decision_task_id bundle ≡ i ∷ is
      → evaluate_decision_basis_with_graph decision_task_id bundle
        ≡ record { claim_assessments = []; graph = none; issues = i ∷ is }
  unfolding evaluate_decision_basis_with_graph
  evaluate_unsound i is h = rw (h, evaluate_decision_basis_with_graph) refl

  -- A bundle is accepted exactly when its structure is sound and its graph raises no issue.
  pub check_decision_basis-eq-nil : (check_decision_basis decision_task_id bundle ≡ []) ↔ (
      (structure_issues decision_task_id bundle ≡ [])
      × (graph_issues bundle
            (derived_assessments decision_task_id bundle)
            (evidence_graph decision_task_id bundle)
          ≡ []))
  unfolding check_decision_basis evaluation_issues
  check_decision_basis-eq-nil = elim (List-cases (structure_issues decision_task_id bundle)) [
    | inl sound ↦
        let e = ap (evaluation_issues bundle) (evaluate_sound sound) in
        (λ h. (sound, sym e ∙ h), λ (_, h). e ∙ h)
    | inr (i, (is, bad)) ↦
        let e = ap (evaluation_issues bundle) (evaluate_unsound i is bad) in
        (λ h. cc (sym e ∙ h), λ (h, _). cc (bad, h))
  ]

  -- An accepted bundle carries exactly the assessments that its evidence derives, in their order, each
  -- claim once.
  pub accepted_assessments :
      check_decision_basis decision_task_id bundle ≡ []
      → (bundle.claim_assessments ≡ derived_assessments decision_task_id bundle)
        × Distinct (map (λ a. a.claim_id) (derived_assessments decision_task_id bundle))
  unfolding graph_issues
  accepted_assessments h =
      let (_, g) = check_decision_basis-eq-nil.0 h in
      (validate_canonical_assessments-eq-nil bundle.claim_assessments
          (derived_assessments decision_task_id bundle)).0
        (nil-parts _ _ g).0

  supporting_ids-some :
      (o : Option ClaimAssessment) (ids : List String)
      → supporting_ids o ≡ some ids
      → (a : ClaimAssessment) × ((o ≡ some a)
          × ((a.evidence_state ≡ supported) × (a.supporting_evidence_ids ≡ ids)))
  unfolding supporting_ids
  supporting_ids-some none ids h = cc h
  supporting_ids-some (some a) ids h = (a, (refl, ground arith))

  derived-Any :
      (P : ClaimAssessment → Type 0)
      → Any P (derived_assessments decision_task_id bundle)
      → Any (λ c. P (assess_claim decision_task_id bundle c)) bundle.claims
  unfolding derived_assessments
  derived-Any P h =
      (Any-sort_by (λ c. c.claim_id) (λ c. P (assess_claim decision_task_id bundle c))
          bundle.claims).0
        (map_back (sort_by (λ c. c.claim_id) bundle.claims) h)
    where
      map_back :
          (xs : List Claim)
          → Any P (map (assess_claim decision_task_id bundle) xs)
          → Any (λ c. P (assess_claim decision_task_id bundle c)) xs
      map_back [] h = h
      map_back (x ∷ xs) (inl h) = inl h
      map_back (x ∷ xs) (inr h) = inr (map_back xs h)

  assess_claim-claim_id :
      (c : Claim) → (assess_claim decision_task_id bundle c).claim_id ≡ c.claim_id
  unfolding derive_claim_assessment
  assess_claim-claim_id c = refl

  -- A trusted claim of an accepted bundle has current support and no current refutation.
  pub Trusts-Backs :
      check_decision_basis decision_task_id bundle ≡ []
      → (claim : Claim) (ids : List String)
      → Trusts (evidence_graph decision_task_id bundle) claim ids
      → Means supported
          ((id : String) × Backs bundle supports claim.claim_id id)
          ((id : String) × Backs bundle refutes claim.claim_id id)
  unfolding evidence_graph
  Trusts-Backs h claim ids trusts =
      let derived = derived_assessments decision_task_id bundle in
      let (_, distinct) = accepted_assessments h in
      let (sound, _) = check_decision_basis-eq-nil.0 h in
      let (a, (found, (state, _))) = supporting_ids-some _ ids trusts in
      let entry = sym (get-index_by (λ x. x.claim_id) derived claim.claim_id distinct) ∙ found in
      let (same, there) = find-some (λ x. x.claim_id == claim.claim_id) derived a entry in
      let (c, e) = Any-witness bundle.claims (derived-Any (λ y. y ≡ a) there) in
      let about = sym (assess_claim-claim_id c) ∙ (ap (λ x. x.claim_id) e ∙ (eq_iff _ _).0 same) in
      let settled = ap (λ x. x.evidence_state) e ∙ state in
      let means =
        subst
          (λ s.
            Means s ((id : String) × Backs bundle supports c.claim_id id)
              ((id : String) × Backs bundle refutes c.claim_id id))
          settled (assess_claim-Means decision_task_id bundle sound c) in
      subst
        (λ k.
          Means supported ((id : String) × Backs bundle supports k id)
            ((id : String) × Backs bundle refutes k id))
        about means

  selected-get :
      (id : String)
      → bundle.decision.selected_candidate_id ≡ some id
      → selected_candidate bundle.decision (evidence_graph decision_task_id bundle)
        ≡ get (index_by (λ x. x.candidate_id) [] bundle.candidates) id
  unfolding selected_candidate evidence_graph
  selected-get id k = rw (k, selected_candidate) refl

  -- An accepted bundle has the candidate that its decision selects.
  pub accepted_candidate :
      check_decision_basis decision_task_id bundle ≡ []
      → (id : String) → bundle.decision.selected_candidate_id ≡ some id
      → (c : Candidate) × ((selected_candidate bundle.decision
              (evidence_graph decision_task_id bundle)
            ≡ some c)
          × ((c.candidate_id ≡ id) × In c bundle.candidates))
  unfolding graph_issues
  accepted_candidate h id picked =
      let (sound, g) = check_decision_basis-eq-nil.0 h in
      let (distinct, _) = structure_issues-Distinct decision_task_id bundle sound in
      let (_, g1) = nil-parts _ _ g in
      let (_, g2) = nil-parts _ _ g1 in
      let there = issue_if-nil _ _ _ (nil-parts _ _ g2).0 in
      let selected = selected_candidate bundle.decision (evidence_graph decision_task_id bundle) in
      elim (Option-cases selected) [
        | inl gone ↦ absurd (missing there picked gone)
        | inr (c, here) ↦
            let entry =
              sym (get-index_by (λ x. x.candidate_id) bundle.candidates id distinct)
              ∙ (sym (selected-get id picked) ∙ here) in
            let (same, member) = find-some (λ x. x.candidate_id == id) bundle.candidates c entry in
            (c, (here, ((eq_iff _ _).0 same, member)))
      ]
    where
      missing :
          {o : Option String} {p : Option Candidate}
          → (not (is_none o) && is_none p) ≡ false
          → o ≡ some id
          → p ≡ none
          → ⊥
      missing t k n = ground (arith, t, k, n)

  -- The checks of the selected candidate and of the eliminations, of an accepted bundle.
  basis_parts :
      check_decision_basis decision_task_id bundle ≡ []
      → (validate_selected_candidate_basis
            (selected_candidate bundle.decision (evidence_graph decision_task_id bundle))
            bundle.requirement_revision
            (evidence_graph decision_task_id bundle)
          ≡ [])
        × (validate_eliminations
              (evidence_graph decision_task_id bundle)
              bundle.requirement_revision
              bundle.decision
              bundle.candidates
            ≡ [])
  unfolding graph_issues
  basis_parts h =
      let decision = bundle.decision in
      let graph = evidence_graph decision_task_id bundle in
      let (_, g) = check_decision_basis-eq-nil.0 h in
      let (_, g1) =
        nil-parts
          (validate_canonical_assessments bundle.claim_assessments
            (derived_assessments decision_task_id bundle))
          _ g in
      let (_, g2) =
        nil-parts
          (collect_unique_ids (λ d. d.disposition_id)
            (name "bundle" ∷ name "decision" ∷ name "candidateDispositions" ∷ []) "dispositionId"
            "Candidate Disposition" decision.candidate_dispositions)
          _ g1 in
      let (_, g3) =
        nil-parts
          (issue_if
            (not (is_none decision.selected_candidate_id)
              && is_none (selected_candidate decision graph))
            (decision_path "selectedCandidateId") "Decision 必须选择结果中存在的 Candidate")
          _ g2 in
      let (selected, g4) =
        nil-parts
          (validate_selected_candidate_basis (selected_candidate decision graph)
            bundle.requirement_revision graph)
          _ g3 in
      let (eliminated, _) =
        nil-parts
          (validate_eliminations graph bundle.requirement_revision decision bundle.candidates) _
          g4 in
      (selected, eliminated)

  pub selected_basis-nil :
      check_decision_basis decision_task_id bundle ≡ []
      → validate_selected_candidate_basis
          (selected_candidate bundle.decision (evidence_graph decision_task_id bundle))
          bundle.requirement_revision
          (evidence_graph decision_task_id bundle)
        ≡ []
  selected_basis-nil h = (basis_parts h).0

  pub eliminations-nil :
      check_decision_basis decision_task_id bundle ≡ []
      → validate_eliminations
          (evidence_graph decision_task_id bundle)
          bundle.requirement_revision
          bundle.decision
          bundle.candidates
        ≡ []
  eliminations-nil h = (basis_parts h).1
