-- ===== src/Contract/Basis/Assessments/Canonical.antt =====
-- The assessments of an accepted bundle are the derived ones.
use choice_mind.Prelude.{
  ℕ, suc, String, ◌≡◌, refl, ap, ap₂, ◌↔◌, true, List, [], ◌∷◌, map, arith, eq_iff, eqb_iff, length,
}
use choice_mind.Js.Sets.{Distinct}
use choice_mind.Contract.Types.{EvidenceState, ClaimAssessment}
use choice_mind.Contract.Issues.{
  issue_if, issue_if-not-nil, nil-parts, nil-join, collect_unique_ids-eq-nil, issue_if-eq-nil,
}
use choice_mind.Contract.Basis.Assessments.{
  same_state, are_same_strings, is_same_assessment, compare_assessments,
  validate_canonical_assessments,
}

are_same_strings_iff : (xs ys : List String) → (are_same_strings xs ys ≡ true) ↔ (xs ≡ ys)
unfolding are_same_strings
are_same_strings_iff [] [] = (λ h. refl, λ h. refl)
are_same_strings_iff [] (y ∷ ys) = (λ h. cc, λ h. cc)
are_same_strings_iff (x ∷ xs) [] = (λ h. cc, λ h. cc)
are_same_strings_iff (x ∷ xs) (y ∷ ys) = ground (arith, eq_iff x y, are_same_strings_iff xs ys)

same_state_iff : (a b : EvidenceState) → (same_state a b ≡ true) ↔ (a ≡ b)
same_state_iff a b = ground arith

is_same_assessment_iff : (a b : ClaimAssessment) → (is_same_assessment a b ≡ true) ↔ (a ≡ b)
unfolding is_same_assessment
is_same_assessment_iff a b = ground (
  arith,
  eq_iff a.claim_id b.claim_id,
  same_state_iff a.evidence_state b.evidence_state,
  are_same_strings_iff a.supporting_evidence_ids b.supporting_evidence_ids,
  are_same_strings_iff a.refuting_evidence_ids b.refuting_evidence_ids,
)

compare_assessments-nil :
    (i : ℕ) (actual expected : List ClaimAssessment)
    → length actual ≡ length expected
    → compare_assessments i actual expected ≡ []
    → actual ≡ expected
unfolding compare_assessments
compare_assessments-nil i [] [] n h = refl
compare_assessments-nil i [] (e ∷ expected) n h = absurd (omega arith)
compare_assessments-nil i (a ∷ actual) [] n h = absurd (omega arith)
compare_assessments-nil i (a ∷ actual) (e ∷ expected) n h =
    let (here, later) = nil-parts _ _ h in
    ap₂ ◌∷◌ ((is_same_assessment_iff a e).0 (issue_if-not-nil _ _ _ here))
      (compare_assessments-nil (suc i) actual expected (omega arith) later)

compare_assessments_self : (i : ℕ) (xs : List ClaimAssessment) → compare_assessments i xs xs ≡ []
unfolding compare_assessments issue_if
compare_assessments_self i [] = refl
compare_assessments_self i (x ∷ xs) =
    ground (arith, is_same_assessment_iff x x, compare_assessments_self (suc i) xs)

pub validate_canonical_assessments_self :
    (xs : List ClaimAssessment)
    → Distinct (map (λ a. a.claim_id) xs)
    → validate_canonical_assessments xs xs ≡ []
unfolding validate_canonical_assessments
validate_canonical_assessments_self xs distinct =
    nil-join _ _ ((collect_unique_ids-eq-nil _ _ _ _ xs).1 distinct)
      (nil-join _ _ ((issue_if-eq-nil _ _ _).1 (ground arith)) (compare_assessments_self 0 xs))

-- Two lists of assessments, those that come with a bundle and those expected, raise no issue exactly
-- when they are equal, in order too, and no claim is assessed twice.
pub validate_canonical_assessments-eq-nil :
    (actual expected : List ClaimAssessment)
    → (validate_canonical_assessments actual expected ≡ [])
      ↔ ((actual ≡ expected) × Distinct (map (λ a. a.claim_id) expected))
unfolding validate_canonical_assessments
validate_canonical_assessments-eq-nil actual expected = (
  λ h.
      let (ids, t) = nil-parts _ _ h in
      let (size, same) = nil-parts _ _ t in
      let equal =
        compare_assessments-nil 0 actual expected ((eqb_iff _ _).0 (issue_if-not-nil _ _ _ size))
          same in
      (
        equal,
        rw (ap (map (λ a. a.claim_id)) equal) at ((collect_unique_ids-eq-nil _ _ _ _ actual).0 ids),
      ),
  λ (equal, distinct). rw equal (validate_canonical_assessments_self expected distinct),
)
