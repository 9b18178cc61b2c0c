-- ===== src/Contract/Basis/Graph/Directions.antt =====
-- packages/contracts/src/decision/v1/decision-basis.ts: which evidence an assessment names, and the
-- state that follows from it.
use choice_mind.Prelude.{String, ◌≡◌, ◌↔◌, ◌⊎◌, inl, inr, true, List, [], ◌∷◌, arith, Any}
use choice_mind.Js.Equality.{text_equality}
use choice_mind.Js.Sets.{In, In-add}
use choice_mind.Js.Sorting.Contents.{Any-sort_by}
use choice_mind.Contract.Types.{
  Timestamp, Claim, Evidence, ClaimEvidenceLink, LinkDirection, supports, refutes, ClaimAssessment,
}
use choice_mind.Contract.Basis.Graph.{
  Sides, is_current, add_side, collect_sides, derive_claim_assessment,
}

-- The evidence that an assessment names on one side.
abbrev pub assessed : LinkDirection → ClaimAssessment → List String
assessed supports a = a.supporting_evidence_ids
assessed refutes a = a.refuting_evidence_ids

module _ (evidence_by_id : List (String × Evidence)) (valid_from : Timestamp) where
  -- A link in the given direction to current evidence with this id.
  abbrev pub CurrentSide : LinkDirection → List ClaimEvidenceLink → String → Type 0
  CurrentSide d links id =
      Any
        (λ l.
          (is_current evidence_by_id valid_from l ≡ true)
          × ((l.direction ≡ d) × (l.evidence_id ≡ id)))
        links

  side_of : LinkDirection → Sides → List String
  side_of supports s = s.supporting
  side_of refutes s = s.refuting

  In-add_side :
      (d e : LinkDirection) (s : Sides) (added id : String)
      → In id (side_of d (add_side s e added)) ↔ (In id (side_of d s) ⊎ ((e ≡ d) × (added ≡ id)))
  unfolding add_side side_of
  In-add_side supports supports s added id = ground (arith, In-add s.supporting added id)
  In-add_side supports refutes s added id = ground arith
  In-add_side refutes supports s added id = ground arith
  In-add_side refutes refutes s added id = ground (arith, In-add s.refuting added id)

  In-collect_sides :
      (d : LinkDirection) (s : Sides) (links : List ClaimEvidenceLink) (id : String)
      → In id (side_of d (collect_sides evidence_by_id valid_from s links))
        ↔ (In id (side_of d s) ⊎ CurrentSide d links id)
  unfolding collect_sides
  In-collect_sides d s [] id = (λ h. inl h, elim [ inl h ↦ h | inr h ↦ absurd h ])
  In-collect_sides d s (l ∷ links) id = ground (
    arith,
    In-collect_sides d (add_side s l.direction l.evidence_id) links id,
    In-collect_sides d s links id,
    In-add_side d l.direction s l.evidence_id id,
  )

  pub In-derive_claim_assessment :
      (d : LinkDirection) (claim : Claim) (links : List ClaimEvidenceLink) (id : String)
      → In id (assessed d (derive_claim_assessment claim links evidence_by_id valid_from))
        ↔ CurrentSide d links id
  unfolding derive_claim_assessment side_of
  In-derive_claim_assessment supports claim links id = ground (
    arith,
    Any-sort_by (λ x. x) (λ y. y ≡ id)
        (side_of supports (
          collect_sides evidence_by_id valid_from (record { supporting = []; refuting = [] })
            links)),
    In-collect_sides supports (record { supporting = []; refuting = [] }) links id,
  )
  In-derive_claim_assessment refutes claim links id = ground (
    arith,
    Any-sort_by (λ x. x) (λ y. y ≡ id)
        (side_of refutes (
          collect_sides evidence_by_id valid_from (record { supporting = []; refuting = [] })
            links)),
    In-collect_sides refutes (record { supporting = []; refuting = [] }) links id,
  )
