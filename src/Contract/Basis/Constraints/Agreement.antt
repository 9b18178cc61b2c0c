-- ===== src/Contract/Basis/Constraints/Agreement.antt =====
-- packages/contracts/src/decision/v1/decision-basis.ts: when a candidate satisfies a constraint.
use choice_mind.Prelude.{
  ℕ, String, ◌≡◌, ◌≢◌, refl, sym, subst, ◌↔◌, inl, inr, Bool, true, false, List, [], ◌∷◌, Option,
  none, some, arith, eqb, eqb_iff, leb, ◌≤◌, ◌<◌, All, All-map, Option-cases, if◌then◌else◌,
}
use choice_mind.Js.Equality.{number_equality}
use choice_mind.Js.Sets.{In, add, In-add}
use choice_mind.Js.Maps.{get}
use choice_mind.Contract.Types.{Claim, RequirementConstraint, Candidate, Budget}
use choice_mind.Contract.Basis.Graph.{EvidenceGraph}
use choice_mind.Contract.Basis.Constraints.{
  ConstraintStatus, satisfied, violated, TrustedClaimValues, supporting_ids, with_value,
  trusted_fact, add_trusted, collect_facts, collect_nonempty, fact_claims,
  collect_trusted_claim_values, get_only_value, assess_only, assess_values, read_money,
  assess_candidate_budget_constraint, read_quantity, meets, assess_candidate_constraint,
  create_indeterminate_assessment,
}

-- The assessment of the claim says SUPPORTED, and names this evidence.
abbrev pub Trusts : EvidenceGraph → Claim → List String → Type 0
Trusts graph claim ids =
    supporting_ids (get graph.claim_assessments_by_id claim.claim_id) ≡ some ids

module _ (graph : EvidenceGraph) (read_value : Claim → Option ℕ) where
  -- The claim is trusted and states the value.
  abbrev pub States : ℕ → Claim → Type 0
  States value claim =
      ((ids : List String) × Trusts graph claim ids) × (read_value claim ≡ some value)

  -- There is a fact about the candidate under the predicate, and all of them are trusted and state the value.
  abbrev pub Agreed : String → String → ℕ → Type 0
  Agreed candidate_id predicate value =
      (fact_claims graph candidate_id predicate ≢ [])
      × All (States value) (fact_claims graph candidate_id predicate)

  with_value_iff :
      (o : Option (List String)) (p : Option ℕ) (value : ℕ) (ids : List String)
      → (with_value o p ≡ some (value, ids)) ↔ ((o ≡ some ids) × (p ≡ some value))
  unfolding with_value
  with_value_iff none p value ids = (λ h. cc h, λ (h, _). cc h)
  with_value_iff (some js) none value ids = (λ h. cc h, λ (_, h). cc h)
  with_value_iff (some js) (some v) value ids = ground arith

  trusted_fact_iff :
      (claim : Claim) (value : ℕ) (ids : List String)
      → (trusted_fact graph read_value claim ≡ some (value, ids))
        ↔ (Trusts graph claim ids × (read_value claim ≡ some value))
  unfolding trusted_fact
  trusted_fact_iff claim value ids = with_value_iff _ _ value ids

  collect_facts-cons :
      (acc : TrustedClaimValues) (c : Claim) (claims : List Claim) (t : TrustedClaimValues)
      → (collect_facts graph read_value acc (c ∷ claims) ≡ some t) ↔ (
          (v : ℕ) × ((ids : List String) × ((trusted_fact graph read_value c ≡ some (v, ids))
              × (collect_facts graph read_value (add_trusted acc v ids) claims ≡ some t))))
  unfolding collect_facts
  collect_facts-cons acc c claims t = elim (Option-cases (trusted_fact graph read_value c)) [
    | inl gone ↦ rw (gone, collect_facts) (λ h. cc h, λ (v, (ids, (k, _))). cc k)
    | inr ((v, ids), here) ↦
        rw (here, collect_facts)
          (
            λ h. (v, (ids, (refl, h))),
            λ (w, (js, (k, h))).
                subst
                  (λ r. collect_facts graph read_value (add_trusted acc r.0 r.1) claims ≡ some t)
                  (same_pair k) h,
          )
  ]
    where
      same_pair : {p q : ℕ × List String} → some p ≡ some q → q ≡ p
      same_pair k = cc k

  -- What the loop found: each fact is trusted, and its value is among those collected.
  collect_facts-some :
      (acc : TrustedClaimValues) (claims : List Claim) (t : TrustedClaimValues)
      → collect_facts graph read_value acc claims ≡ some t
      → ((x : ℕ) → In x acc.values → In x t.values)
        × All (λ c. (v : ℕ) × (In v t.values × States v c)) claims
  unfolding collect_facts add_trusted
  collect_facts-some acc [] t h = (λ x n. subst (λ l. In x l) (values_of h) n, tt)
    where
      values_of : {s t : TrustedClaimValues} → some s ≡ some t → s.values ≡ t.values
      values_of k = cc k
  collect_facts-some acc (c ∷ claims) t h =
      let (v, (ids, (here, later))) = (collect_facts-cons acc c claims t).0 h in
      let (grown, each) = collect_facts-some (add_trusted acc v ids) claims t later in
      let (trusts, reads) = (trusted_fact_iff c v ids).0 here in
      (
        λ x n. grown x ((In-add acc.values v x).1 (inl n)),
        ((v, (grown v ((In-add acc.values v v).1 (inr refl)), ((ids, trusts), reads))), each),
      )

  add_again : (v : ℕ) (values : List ℕ) → values ≡ v ∷ [] → add values v ≡ v ∷ []
  unfolding add
  add_again v values h = ground (arith, h)

  -- Facts that all state one value are collected as that value.
  collect_facts-States :
      (v : ℕ) (acc : TrustedClaimValues) (claims : List Claim)
      → acc.values ≡ v ∷ []
      → All (States v) claims
      → (t : TrustedClaimValues) × ((collect_facts graph read_value acc claims ≡ some t)
          × (t.values ≡ v ∷ []))
  unfolding collect_facts add_trusted
  collect_facts-States v acc [] one h = (acc, (refl, one))
  collect_facts-States v acc (c ∷ claims) one (((ids, trusts), reads), h) =
      let here = (trusted_fact_iff c v ids).1 (trusts, reads) in
      let (t, (found, values)) =
        collect_facts-States v (add_trusted acc v ids) claims (add_again v acc.values one) h in
      (t, ((collect_facts-cons acc c claims t).1 (v, (ids, (here, found))), values))

  -- The loop agrees on a value exactly when there are facts and all of them state it.
  collect_nonempty_iff :
      (v : ℕ) (claims : List Claim)
      → ((t : TrustedClaimValues) × ((collect_nonempty graph read_value claims ≡ some t)
            × (t.values ≡ v ∷ [])))
        ↔ ((claims ≢ []) × All (States v) claims)
  unfolding collect_nonempty add_trusted add
  collect_nonempty_iff v [] = (λ (t, (h, _)). cc h, λ (n, _). absurd (n refl))
  collect_nonempty_iff v (c ∷ claims) = (
    λ (t, (h, one)).
        let (_, each) =
          collect_facts-some (record { values = []; supporting_evidence_ids = [] }) (c ∷ claims) t
            h in
        (
          λ k. cc k,
          All-map (λ x (w, (n, s)). subst (λ y. States y x) (only w t.values one n) s) (c ∷ claims)
              each,
        ),
    λ (_, (((ids, trusts), reads), h)).
        let start : TrustedClaimValues = record { values = []; supporting_evidence_ids = [] } in
        let here = (trusted_fact_iff c v ids).1 (trusts, reads) in
        let (t, (found, values)) = collect_facts-States v (add_trusted start v ids) claims refl h in
        (t, ((collect_facts-cons start c claims t).1 (v, (ids, (here, found))), values)),
  )
    where
      only : (w : ℕ) (values : List ℕ) → values ≡ v ∷ [] → In w values → w ≡ v
      only w values one n = elim (subst (λ l. In w l) one n) [ inl e ↦ sym e | inr m ↦ absurd m ]

get_only_value_iff :
    (values : List ℕ) (v : ℕ) → (get_only_value values ≡ some v) ↔ (values ≡ v ∷ [])
unfolding get_only_value
get_only_value_iff [] v = (λ h. cc h, λ h. cc h)
get_only_value_iff (w ∷ []) v = (λ h. cc h, λ h. cc h)
get_only_value_iff (w ∷ x ∷ values) v = (λ h. cc h, λ h. cc h)

same_value : {v w : ℕ} → some w ≡ some v → v ≡ w
same_value k = cc k

-- The status says satisfied or violated exactly when the values are one usable one, of which that holds.
status_of : Bool → ConstraintStatus
status_of true = satisfied
status_of false = violated

settle :
    (u h b : Bool) (ids : List String)
    → ((if u
          then record { status = if h then satisfied else violated; supporting_evidence_ids = ids }
          else create_indeterminate_assessment).status
        ≡ status_of b)
      ↔ ((u ≡ true) × (h ≡ b))
unfolding status_of create_indeterminate_assessment
settle false h true ids = (λ k. cc k, λ (k, _). cc k)
settle false h false ids = (λ k. cc k, λ (k, _). cc k)
settle true true true ids = (λ k. (refl, refl), λ k. refl)
settle true true false ids = (λ k. cc k, λ (_, k). cc k)
settle true false true ids = (λ k. cc k, λ (_, k). cc k)
settle true false false ids = (λ k. (refl, refl), λ k. refl)

assess_only_iff :
    (o : Option ℕ) (ids : List String) (usable holds : ℕ → Bool) (b : Bool)
    → ((assess_only o ids usable holds).status ≡ status_of b)
      ↔ ((v : ℕ) × ((o ≡ some v) × ((usable v ≡ true) × (holds v ≡ b))))
unfolding assess_only status_of create_indeterminate_assessment
assess_only_iff none ids usable holds true = (λ h. cc h, λ (v, (k, _)). cc k)
assess_only_iff none ids usable holds false = (λ h. cc h, λ (v, (k, _)). cc k)
assess_only_iff (some w) ids usable holds b = (
  λ h. (w, (refl, (settle (usable w) (holds w) b ids).0 h)),
  λ (v, (k, p)).
      (settle (usable w) (holds w) b ids).1
        (subst (λ x. (usable x ≡ true) × (holds x ≡ b)) (same_value k) p),
)

assess_values_iff :
    (o : Option TrustedClaimValues) (usable holds : ℕ → Bool) (b : Bool)
    → ((assess_values o usable holds).status ≡ status_of b) ↔ (
        (v : ℕ) × (((t : TrustedClaimValues) × ((o ≡ some t) × (t.values ≡ v ∷ [])))
          × ((usable v ≡ true) × (holds v ≡ b))))
unfolding assess_values status_of create_indeterminate_assessment
assess_values_iff none usable holds true = (λ h. cc h, λ (v, ((t, (k, _)), _)). cc k)
assess_values_iff none usable holds false = (λ h. cc h, λ (v, ((t, (k, _)), _)). cc k)
assess_values_iff (some t) usable holds b =
    let (there, back) =
      assess_only_iff (get_only_value t.values) t.supporting_evidence_ids usable holds b in
    (
      λ h. let (v, (k, p)) = there h in (v, ((t, (refl, (get_only_value_iff t.values v).0 k)), p)),
      λ (v, ((u, (k, one)), p)). back (
        v,
        ((get_only_value_iff t.values v).1 (subst (λ l. l ≡ v ∷ []) (sym (values_of k)) one), p),
      ),
    )
  where
    values_of : {s t : TrustedClaimValues} → some s ≡ some t → s.values ≡ t.values
    values_of k = cc k

module _ (graph : EvidenceGraph) where
  collected_iff :
      (read_value : Claim → Option ℕ) (candidate_id predicate : String) (usable holds : ℕ → Bool)
      (b : Bool)
      → ((assess_values
            (collect_trusted_claim_values graph read_value candidate_id predicate)
            usable
            holds).status
          ≡ status_of b)
        ↔ ((v : ℕ) × (Agreed graph read_value candidate_id predicate v
              × ((usable v ≡ true) × (holds v ≡ b))))
  unfolding collect_trusted_claim_values
  collected_iff read_value candidate_id predicate usable holds b =
      let (there, back) =
        assess_values_iff (collect_trusted_claim_values graph read_value candidate_id predicate)
          usable holds b in
      let agreed = λ (v : ℕ).
        collect_nonempty_iff graph read_value v (fact_claims graph candidate_id predicate) in
      (
        λ h. let (v, (t, p)) = there h in (v, ((agreed v).0 t, p)),
        λ (v, (t, p)). back (v, ((agreed v).1 t, p)),
      )

  -- A must-have is satisfied exactly when there are facts about it, all of them trusted and agreeing on
  -- one amount in its unit, and that amount meets it; it is violated when that amount does not.
  pub assess_candidate_constraint_iff :
      (candidate_id : String) (constraint : RequirementConstraint)
      → (((assess_candidate_constraint candidate_id constraint graph).status ≡ satisfied) ↔ (
          (amount : ℕ) × (Agreed graph (read_quantity constraint) candidate_id constraint.key amount
            × (meets constraint.operator amount constraint.value.amount ≡ true))))
        × (((assess_candidate_constraint candidate_id constraint graph).status ≡ violated) ↔ (
            (amount : ℕ) × (Agreed graph
                (read_quantity constraint)
                candidate_id
                constraint.key
                amount
              × (meets constraint.operator amount constraint.value.amount ≡ false))))
  unfolding assess_candidate_constraint status_of
  assess_candidate_constraint_iff candidate_id constraint =
      let iff = λ (b : Bool).
        collected_iff (read_quantity constraint) candidate_id constraint.key (λ amount. true)
          (λ amount. meets constraint.operator amount constraint.value.amount) b in
      (
        (
          λ h. let (v, (a, (_, p))) = (iff true).0 h in (v, (a, p)),
          λ (v, (a, p)). (iff true).1 (v, (a, (refl, p))),
        ),
        (
          λ h. let (v, (a, (_, p))) = (iff false).0 h in (v, (a, p)),
          λ (v, (a, p)). (iff false).1 (v, (a, (refl, p))),
        ),
      )

  -- A budget is satisfied, or violated, exactly when there are trusted facts that all state the observed
  -- price of the candidate, and that price is, or is not, at most the budget.
  pub assess_candidate_budget_constraint_iff :
      (candidate : Candidate) (budget : Budget)
      → (((assess_candidate_budget_constraint candidate budget graph).status ≡ satisfied) ↔ (
          Agreed graph
            (read_money candidate)
            candidate.candidate_id
            "price.observed"
            candidate.observed_price.amount_minor
          × (candidate.observed_price.amount_minor ≤ budget.max_amount_minor)))
        × (((assess_candidate_budget_constraint candidate budget graph).status ≡ violated) ↔ (
            Agreed graph
              (read_money candidate)
              candidate.candidate_id
              "price.observed"
              candidate.observed_price.amount_minor
            × (budget.max_amount_minor < candidate.observed_price.amount_minor)))
  unfolding assess_candidate_budget_constraint status_of
  assess_candidate_budget_constraint_iff candidate budget =
      let price = candidate.observed_price.amount_minor in
      let P =
        λ (v : ℕ). Agreed graph (read_money candidate) candidate.candidate_id "price.observed" v in
      let iff = λ (b : Bool).
        collected_iff (read_money candidate) candidate.candidate_id "price.observed"
          (λ amount. eqb amount price) (λ amount. leb amount budget.max_amount_minor) b in
      (
        (
          λ h.
              let (v, (a, (e, p))) = (iff true).0 h in
              (subst P ((eqb_iff v price).0 e) a, ground (arith, e, p)),
          λ (a, p). (iff true).1 (price, (a, (ground arith, ground (arith, p)))),
        ),
        (
          λ h.
              let (v, (a, (e, p))) = (iff false).0 h in
              (subst P ((eqb_iff v price).0 e) a, ground (arith, e, p)),
          λ (a, p). (iff false).1 (price, (a, (ground arith, ground (arith, p)))),
        ),
      )
