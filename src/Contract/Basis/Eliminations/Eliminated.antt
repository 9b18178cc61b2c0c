-- ===== src/Contract/Basis/Eliminations/Eliminated.antt =====
-- packages/contracts/src/decision/v1/decision-basis.ts: what `validateEliminations` lets pass.
use choice_mind.Prelude.{
  ℕ, suc, String, ◌≡◌, ◌≢◌, refl, subst, ◌↔◌, ◌⊎◌, inl, inr, Bool, true, false, not, ◌&&◌, List, [],
  ◌∷◌, map, Option, none, some, arith, if◌then◌else◌, same_text?, same_text?_iff, any_iff,
  and-eq-true, Any-map, flat_map_from, All, Any,
}
use choice_mind.Js.Equality.{text_equality}
use choice_mind.Js.Sets.{In, has, has_iff, add, set_of, In-set_of}
use choice_mind.Js.Maps.{get}
use choice_mind.Contract.Types.{
  Candidate, CandidateDisposition, DecisionRevision, DecisionStatus, need_more_info,
  RequirementRevision,
}
use choice_mind.Contract.Issues.{
  AllFrom, flat_map_from-eq-nil, issue_if, issue_if-nil, issue_if-not-nil, nil-parts,
}
use choice_mind.Contract.Statuses.{is_need_more_info, is_none}
use choice_mind.Contract.Basis.Graph.{EvidenceGraph}
use choice_mind.Contract.Basis.Constraints.{
  ConstraintStatus, ConstraintAssessment, violated, assess_disposition_constraint,
}
use choice_mind.Contract.Basis.Eliminations.{
  disposition_path, is_violated, hard_constraint_keys, proves_violation,
  disposition_evidence_issues, disposition_issues, all_disposition_issues, undisposed_issues,
  validate_eliminations,
}

unequal : (o : Option String) (t : String) → same_text? o t ≡ false → o ≢ some t
unequal o t h k = cc (h, (same_text?_iff o t).1 k)

is_violated_iff : (s : ConstraintStatus) → (is_violated s ≡ true) ↔ (s ≡ violated)
is_violated_iff s = ground arith

module _ (graph : EvidenceGraph) (requirement : RequirementRevision)
    (decision : DecisionRevision) where
  -- The disposition is of a known candidate that is not selected, its key is a hard constraint, that
  -- candidate violates it, and some evidence of the disposition is evidence for that.
  pub record IsEliminated (d : CandidateDisposition) : Type 0 where
    pub unselected : decision.selected_candidate_id ≢ some d.candidate_id
    pub known : (c : Candidate) × (get graph.candidates_by_id d.candidate_id ≡ some c)
    pub hard : In d.requirement_key (hard_constraint_keys requirement)
    pub violates :
        (assess_disposition_constraint d.candidate_id d.requirement_key requirement graph).status
        ≡ violated
    pub proved :
        Any
          (λ id.
            In id
              (assess_disposition_constraint d.candidate_id d.requirement_key requirement
                graph).supporting_evidence_ids)
          d.evidence_ids

  some_of : {A : Type 0} (o : Option A) → is_none o ≡ false → (a : A) × (o ≡ some a)
  some_of none h = cc h
  some_of (some a) h = (a, refl)

  disposition_issues-IsEliminated :
      (seen : List String) (i : ℕ) (d : CandidateDisposition)
      → disposition_issues graph requirement decision seen i d ≡ []
      → IsEliminated d
  unfolding disposition_issues proves_violation
  disposition_issues-IsEliminated seen i d h =
      let assessment : ConstraintAssessment =
        assess_disposition_constraint d.candidate_id d.requirement_key requirement graph in
      let (_, t1) =
        nil-parts
          (issue_if (has seen d.candidate_id) (disposition_path i "candidateId")
            "同一 Candidate 只能拥有一个 Candidate Disposition")
          _ h in
      let (a, t2) = nil-parts _ _ t1 in
      let (b, t3) = nil-parts _ _ t2 in
      let (_, t4) =
        nil-parts
          (flat_map_from (disposition_evidence_issues graph d.candidate_id i) 0 d.evidence_ids) _
          t3 in
      let (c, e) = nil-parts _ _ t4 in
      let other : same_text? decision.selected_candidate_id d.candidate_id ≡ false =
        issue_if-nil _ _ _ a in
      let keyed = issue_if-not-nil _ _ _ c in
      let proof = both _ _ keyed (issue_if-nil _ _ _ e) in
      let (bad, evidenced) = (and-eq-true _ _).0 proof in
      record {
        unselected = unequal decision.selected_candidate_id d.candidate_id other;
        known = some_of (get graph.candidates_by_id d.candidate_id) (issue_if-nil _ _ _ b);
        hard = (has_iff _ _).0 keyed;
        violates = (is_violated_iff _).0 bad;
        proved =
            Any-map (λ id n. (has_iff assessment.supporting_evidence_ids id).0 n) d.evidence_ids
              ((any_iff (λ id. has assessment.supporting_evidence_ids id) d.evidence_ids).0
                evidenced);
      }
    where
      both : (p q : Bool) → p ≡ true → (p && not q) ≡ false → q ≡ true
      both true true k l = refl
      both true false k l = cc l
      both false q k l = cc k

  all_disposition_issues-IsEliminated :
      (seen : List String) (i : ℕ) (ds : List CandidateDisposition)
      → all_disposition_issues graph requirement decision seen i ds ≡ []
      → All IsEliminated ds
  unfolding all_disposition_issues
  all_disposition_issues-IsEliminated seen i [] h = tt
  all_disposition_issues-IsEliminated seen i (d ∷ ds) h =
      let (a, b) = nil-parts _ _ h in
      (
        disposition_issues-IsEliminated seen i d a,
        all_disposition_issues-IsEliminated (add seen d.candidate_id) (suc i) ds b,
      )

  undisposed_issues-nil :
      (i : ℕ) (c : Candidate)
      → undisposed_issues graph requirement decision i c ≡ []
      → (decision.selected_candidate_id ≡ some c.candidate_id)
        ⊎ In c.candidate_id (map (λ d. d.candidate_id) decision.candidate_dispositions)
  unfolding undisposed_issues
  undisposed_issues-nil i c h =
      let ids =
        map (λ (d : CandidateDisposition). d.candidate_id) decision.candidate_dispositions in
      let chosen = same_text?_iff decision.selected_candidate_id c.candidate_id in
      let listed = has_iff (set_of ids) c.candidate_id in
      elim (either (same_text? decision.selected_candidate_id c.candidate_id)
        (has (set_of ids) c.candidate_id) (issue_if-nil _ _ _ h)) [
          | inl k ↦ inl (chosen.0 k)
          | inr k ↦ inr ((In-set_of ids c.candidate_id).0 (listed.0 k))
        ]
    where
      either : (p q : Bool) → (not p && not q) ≡ false → (p ≡ true) ⊎ (q ≡ true)
      either true q k = inl refl
      either false true k = inr refl
      either false false k = cc k

  -- Where nothing is raised, every disposition eliminates its candidate for cause, and unless the decision asks
  -- for more information, every candidate is the selected one or has a disposition.
  pub validate_eliminations-IsEliminated :
      (candidates : List Candidate)
      → validate_eliminations graph requirement decision candidates ≡ []
      → All IsEliminated decision.candidate_dispositions
        × (decision.status ≢ need_more_info
            → All
                (λ c.
                  (decision.selected_candidate_id ≡ some c.candidate_id)
                  ⊎ In c.candidate_id (map (λ d. d.candidate_id) decision.candidate_dispositions))
                candidates)
  unfolding validate_eliminations
  validate_eliminations-IsEliminated candidates h =
      let (a, b) =
        nil-parts
          (all_disposition_issues graph requirement decision [] 0 decision.candidate_dispositions)
          (if is_need_more_info decision.status
            then []
            else flat_map_from (undisposed_issues graph requirement decision) 0 candidates)
          h in
      (
        all_disposition_issues-IsEliminated [] 0 decision.candidate_dispositions a,
        λ asked. settled_all 0 candidates (
            (flat_map_from-eq-nil (undisposed_issues graph requirement decision) 0 candidates).0 (
              subst
                (λ x.
                  (if x
                    then []
                    else flat_map_from (undisposed_issues graph requirement decision) 0 candidates)
                  ≡ [])
                (no_question decision.status asked) b)),
      )
    where
      no_question : (s : DecisionStatus) → s ≢ need_more_info → is_need_more_info s ≡ false
      no_question s n = ground arith

      settled_all :
          (i : ℕ) (cs : List Candidate)
          → AllFrom (λ j c. undisposed_issues graph requirement decision j c ≡ []) i cs
          → All
              (λ c.
                (decision.selected_candidate_id ≡ some c.candidate_id)
                ⊎ In c.candidate_id (map (λ d. d.candidate_id) decision.candidate_dispositions))
              cs
      settled_all i [] k = tt
      settled_all i (c ∷ cs) (k, l) = (undisposed_issues-nil i c k, settled_all (suc i) cs l)
