-- ===== src/Contract/Basis/Graph/Assessed.antt =====
-- packages/contracts/src/decision/v1/decision-basis.ts: what `deriveClaimAssessment` says of a claim of
-- a bundle, in terms of the bundle's links and evidence.
use choice_mind.Prelude.{
  String, ◌≡◌, refl, sym, ap, subst, ◌∙◌, ◌↔◌, inl, inr, true, List, [], ◌∷◌, map, some, arith,
  ◌==◌, eq_iff, Any, Any-map, ◌≤◌, Option-cases,
}
use choice_mind.Js.Equality.{text_equality}
use choice_mind.Js.Sets.{In, Distinct}
use choice_mind.Js.Maps.{get, or_empty}
use choice_mind.Js.Maps.Lookup.{get-index_by, or_empty-get-group_by, find-Distinct, Any-select}
use choice_mind.Contract.Types.{
  Timestamp, Claim, Evidence, ClaimEvidenceLink, LinkDirection, supports, refutes, EvidenceState,
  supported, refuted, conflicted, insufficient, DecisionBundle,
}
use choice_mind.Contract.Issues.{nil-parts, collect_unique_ids-eq-nil}
use choice_mind.Contract.Basis.Graph.{
  is_current, state_of, derive_claim_assessment, evidence_by_id, links_by_claim_id, assess_claim,
  structure_issues,
}
use choice_mind.Contract.Basis.Graph.Directions.{assessed, In-derive_claim_assessment}

-- Evidence of the bundle with this id is still valid when the decision takes effect.
abbrev pub IsCurrent : DecisionBundle → String → Type 0
IsCurrent bundle id =
    Any (λ e. (e.evidence_id ≡ id) × (bundle.decision.valid_from.millis ≤ e.valid_until.millis))
      bundle.evidence

-- A link of the bundle relates this claim to this evidence in this direction, and the evidence is current.
abbrev pub Backs : DecisionBundle → LinkDirection → String → String → Type 0
Backs bundle d claim_id id =
    Any
      (λ l.
        (l.claim_id ≡ claim_id)
        × ((l.direction ≡ d) × ((l.evidence_id ≡ id) × IsCurrent bundle id)))
      bundle.claim_evidence_links

-- What a state means, given what it is to have support and to have refutation.
abbrev pub Means : EvidenceState → Type 0 → Type 0 → Type 0
Means supported Support Refutation = Support × (¬ Refutation)
Means refuted Support Refutation = (¬ Support) × Refutation
Means conflicted Support Refutation = Support × Refutation
Means insufficient Support Refutation = (¬ Support) × (¬ Refutation)

state_of-Means :
    (s r : List String) (Support Refutation : Type 0)
    → ((id : String) × In id s) ↔ Support
    → ((id : String) × In id r) ↔ Refutation
    → Means (state_of s r) Support Refutation
state_of-Means [] [] S R (_, s) (_, r) = (λ h. (s h).1, λ h. (r h).1)
state_of-Means [] (y ∷ r) S R (_, s) (r1, _) = (λ h. (s h).1, r1 (y, inl refl))
state_of-Means (x ∷ s) [] S R (s1, _) (_, r) = (s1 (x, inl refl), λ h. (r h).1)
state_of-Means (x ∷ s) (y ∷ r) S R (s1, _) (r1, _) = (s1 (x, inl refl), r1 (y, inl refl))

is_current-get :
    (m : List (String × Evidence)) (from : Timestamp) (l : ClaimEvidenceLink)
    → (is_current m from l ≡ true)
      ↔ ((e : Evidence) × ((get m l.evidence_id ≡ some e) × (from.millis ≤ e.valid_until.millis)))
unfolding is_current
is_current-get m from l = elim (Option-cases (get m l.evidence_id)) [
  | inl gone ↦ rw gone (λ h. cc, λ (e, (k, p)). cc k)
  | inr (e, here) ↦ rw here (
    λ h. (e, (refl, ground arith)),
    λ (f, (k, p)). let same = injective k in ground (arith, ap (λ x. x.valid_until.millis) same),
  )
]
  where
    injective : {a b : Evidence} → some a ≡ some b → a ≡ b
    injective k = cc k

module _ (decision_task_id : String) (bundle : DecisionBundle) where
  -- A bundle without structural issues has distinct ids.
  pub structure_issues-Distinct :
      structure_issues decision_task_id bundle ≡ []
      → Distinct (map (λ c. c.candidate_id) bundle.candidates)
        × (Distinct (map (λ c. c.claim_id) bundle.claims)
            × Distinct (map (λ e. e.evidence_id) bundle.evidence))
  unfolding structure_issues
  structure_issues-Distinct h =
      let (a, t) = nil-parts _ _ h in
      let (b, u) = nil-parts _ _ t in
      let (c, _) = nil-parts _ _ u in
      (
        (collect_unique_ids-eq-nil _ _ _ _ bundle.candidates).0 a,
        (
          (collect_unique_ids-eq-nil _ _ _ _ bundle.claims).0 b,
          (collect_unique_ids-eq-nil _ _ _ _ bundle.evidence).0 c,
        ),
      )

  is_current_iff :
      (l : ClaimEvidenceLink)
      → Distinct (map (λ e. e.evidence_id) bundle.evidence)
      → (is_current (evidence_by_id decision_task_id bundle) bundle.decision.valid_from l ≡ true)
        ↔ IsCurrent bundle l.evidence_id
  unfolding evidence_by_id
  is_current_iff l d =
      let from = bundle.decision.valid_from in
      let found =
        find-Distinct (λ e. e.evidence_id) (λ e. from.millis ≤ e.valid_until.millis) bundle.evidence
          l.evidence_id d in
      let entry = get-index_by (λ e. e.evidence_id) bundle.evidence l.evidence_id d in
      let (there, back) = is_current-get (evidence_by_id decision_task_id bundle) from l in
      (
        λ h. let (e, (k, p)) = there h in found.0 (e, (sym entry ∙ k, p)),
        λ h. let (e, (k, p)) = found.1 h in back (e, (entry ∙ k, p)),
      )

  link_iff :
      (claim_id : String) (d : LinkDirection) (id : String)
      → Distinct (map (λ e. e.evidence_id) bundle.evidence)
      → (l : ClaimEvidenceLink)
      → (((l.claim_id == claim_id) ≡ true)
          × ((is_current (evidence_by_id decision_task_id bundle) bundle.decision.valid_from l
                ≡ true)
              × ((l.direction ≡ d) × (l.evidence_id ≡ id))))
        ↔ ((l.claim_id ≡ claim_id)
            × ((l.direction ≡ d) × ((l.evidence_id ≡ id) × IsCurrent bundle id)))
  link_iff claim_id d id distinct l =
      let current = is_current_iff l distinct in
      let claims = eq_iff l.claim_id claim_id in
      (
        λ (a, (b, (c, e))). (claims.0 a, (c, (e, subst (IsCurrent bundle) e (current.0 b)))),
        λ (a, (c, (e, b))). (claims.1 a, (current.1 (subst (IsCurrent bundle) (sym e) b), (c, e))),
      )

  -- In a bundle whose structure raises no issue, the derived assessment of a claim names an evidence on
  -- one side exactly when a link of the bundle relates the claim to it in that direction and the
  -- evidence is still valid when the decision takes effect.
  pub assess_claim-Backs :
      structure_issues decision_task_id bundle ≡ []
      → (d : LinkDirection) (claim : Claim) (id : String)
      → In id (assessed d (assess_claim decision_task_id bundle claim))
        ↔ Backs bundle d claim.claim_id id
  unfolding links_by_claim_id
  assess_claim-Backs h d claim id =
      let (_, (_, distinct)) = structure_issues-Distinct h in
      let links = bundle.claim_evidence_links in
      let P = λ (l : ClaimEvidenceLink).
        (is_current (evidence_by_id decision_task_id bundle) bundle.decision.valid_from l ≡ true)
        × ((l.direction ≡ d) × (l.evidence_id ≡ id)) in
      let group = or_empty-get-group_by (λ l. l.claim_id) links claim.claim_id in
      let named =
        In-derive_claim_assessment (evidence_by_id decision_task_id bundle)
          bundle.decision.valid_from d claim
          (or_empty (get (links_by_claim_id decision_task_id bundle) claim.claim_id)) id in
      let chosen = Any-select (λ l. l.claim_id == claim.claim_id) P links in
      (
        λ n.
            Any-map (λ l. (link_iff claim.claim_id d id distinct l).0) links
              (chosen.0 (subst (λ ls. Any P ls) group (named.0 n))),
        λ b. named.1 (
            subst (λ ls. Any P ls) (sym group)
              (chosen.1 (Any-map (λ l. (link_iff claim.claim_id d id distinct l).1) links b))),
      )

  -- In a bundle whose structure raises no issue, the derived assessment of a claim is SUPPORTED if a
  -- link to current evidence supports the claim and none refutes it, REFUTED the other way round,
  -- CONFLICTED if there are both, and INSUFFICIENT if there are neither.
  pub assess_claim-Means :
      structure_issues decision_task_id bundle ≡ []
      → (claim : Claim)
      → Means
          (assess_claim decision_task_id bundle claim).evidence_state
          ((id : String) × Backs bundle supports claim.claim_id id)
          ((id : String) × Backs bundle refutes claim.claim_id id)
  unfolding derive_claim_assessment
  assess_claim-Means h claim =
      state_of-Means _ _ _ _
        (
          λ (id, n). (id, (assess_claim-Backs h supports claim id).0 n),
          λ (id, b). (id, (assess_claim-Backs h supports claim id).1 b),
        )
        (
          λ (id, n). (id, (assess_claim-Backs h refutes claim id).0 n),
          λ (id, b). (id, (assess_claim-Backs h refutes claim id).1 b),
        )
