-- ===== src/GoldGate/Verdict.antt =====
-- packages/p0-gold-gate/src/index.ts: when the gate passes.
use choice_mind.Prelude.{
  String, ◌≡◌, refl, sym, ◌↔◌, Bool, true, not, List, [], ◌∷◌, map, arith, eqb, eqb_iff, length,
  all_iff, select, All, All-map, All-append, ◌∙◌, and-eq-true,
}
use choice_mind.Js.Equality.{text_equality}
use choice_mind.Js.Sets.{In, Distinct, has, has_iff, set_of, In-set_of}
use choice_mind.Js.Sets.Sizes.{length-set_of_iff}
use choice_mind.GoldGate.{
  GateStatus, passed, GateResult, ServiceSmoke, LocalServiceSmoke, GoldGateInput, is_passed,
  passed_if, core_gate, required_services, has_exact_service_set, service_gate, all_gates,
  evaluate_p0_gold_gate,
}

six : length required_services ≡ 6
unfolding required_services
six = refl

passed_if_iff : (b : Bool) → (passed_if b ≡ passed) ↔ (b ≡ true)
passed_if_iff b = ground arith

is_passed_iff : (s : GateStatus) → (is_passed s ≡ true) ↔ (s ≡ passed)
is_passed_iff s = ground arith

length-map : {A B : Type 0} (f : A → B) (xs : List A) → length (map f xs) ≡ length xs
length-map f [] = refl
length-map f (x ∷ xs) = omega (arith, length-map f xs)

-- No gate is among the failures exactly when all have passed.
blocking_iff :
    (gates : List GateResult)
    → (eqb (length (map (λ g. g.gate_id) (select (λ g. not (is_passed g.status)) gates))) 0 ≡ true)
      ↔ All (λ g. g.status ≡ passed) gates
blocking_iff [] = (λ h. tt, λ h. refl)
blocking_iff (g ∷ gates) = ground (arith, blocking_iff gates, is_passed_iff g.status)

-- The services reported are the required ones, each once, and all passed, as did the report.
abbrev pub IsCompleteSmoke : LocalServiceSmoke → Type 0
IsCompleteSmoke report =
    (report.status ≡ passed)
    × ((length report.services ≡ 6)
        × (Distinct (map (λ s. s.service_id) report.services)
            × (All (λ id. In id (map (λ s. s.service_id) report.services)) required_services
                × All (λ s. s.status ≡ passed) report.services)))

exact_iff :
    (services : List ServiceSmoke)
    → (has_exact_service_set services ≡ true) ↔ (
        (length services ≡ 6)
        × (Distinct (map (λ s. s.service_id) services)
            × All (λ id. In id (map (λ s. s.service_id) services)) required_services))
unfolding has_exact_service_set
exact_iff services =
    let ids = map (λ (s : ServiceSmoke). s.service_id) services in
    let count = eqb_iff (length services) (length required_services) in
    let size = eqb_iff (length (set_of ids)) (length required_services) in
    let members = all_iff (has (set_of ids)) required_services in
    let distinct = length-set_of_iff ids in
    let same = length-map (λ (s : ServiceSmoke). s.service_id) services in
    (
      λ h.
          let (a, t) = (and-eq-true _ _).0 h in
          let (b, c) = (and-eq-true _ _).0 t in
          (
            count.0 a ∙ six,
            (
              distinct.0 (size.0 b ∙ (sym (count.0 a) ∙ sym same)),
              All-map (λ id n. (In-set_of ids id).0 ((has_iff (set_of ids) id).0 n))
                  required_services (members.0 c),
            ),
          ),
      λ (a, (d, c)).
          let counted = a ∙ sym six in
          (and-eq-true _ _).1 (
            count.1 counted,
            (and-eq-true _ _).1 (
              size.1 (distinct.1 d ∙ (same ∙ counted)),
              members.1 (
                  All-map (λ id n. (has_iff (set_of ids) id).1 ((In-set_of ids id).1 n))
                    required_services c),
            ),
          ),
    )

core_gate_iff : (files : List String) → ((core_gate files).status ≡ passed) ↔ (files ≡ [])
unfolding core_gate
core_gate_iff [] = (λ h. refl, λ h. refl)
core_gate_iff (f ∷ files) =
    (λ h. absurd (omega (arith, (eqb_iff _ _).0 ((passed_if_iff _).0 h))), λ h. cc h)

service_gate_iff :
    (report : LocalServiceSmoke) → ((service_gate report).status ≡ passed) ↔ IsCompleteSmoke report
unfolding service_gate
service_gate_iff report =
    let exact = exact_iff report.services in
    let each = all_iff (λ (s : ServiceSmoke). is_passed s.status) report.services in
    (
      λ h.
          let (a, t) = (and-eq-true _ _).0 ((passed_if_iff _).0 h) in
          let (b, c) = (and-eq-true _ _).0 t in
          let (n, (d, r)) = exact.0 b in
          (
            (is_passed_iff report.status).0 a,
            (n, (d, (r, All-map (λ s k. (is_passed_iff s.status).0 k) report.services (each.0 c)))),
          ),
      λ (a, (n, (d, (r, c)))). (passed_if_iff _).1 (
          (and-eq-true _ _).1 (
            (is_passed_iff report.status).1 a,
            (and-eq-true _ _).1 (
              exact.1 (n, (d, r)),
              each.1 (All-map (λ s k. (is_passed_iff s.status).1 k) report.services c),
            ),
          )),
    )

-- The evaluation passes exactly when every gate result passed, no file of the core was modified, and the
-- report on the local services passed, with each of the six required services reported once and passed.
pub evaluate_p0_gold_gate-passed_iff :
    (input : GoldGateInput)
    → ((evaluate_p0_gold_gate input).report.status ≡ passed) ↔ (
        All (λ g. g.status ≡ passed) input.gate_results
        × ((input.core_modified_files ≡ []) × IsCompleteSmoke input.local_service_report))
unfolding evaluate_p0_gold_gate
evaluate_p0_gold_gate-passed_iff input =
    let blocking = blocking_iff (all_gates input) in
    let split =
      All-append (λ (g : GateResult). g.status ≡ passed) input.gate_results
        (core_gate input.core_modified_files ∷ service_gate input.local_service_report ∷ []) in
    let core = core_gate_iff input.core_modified_files in
    let services = service_gate_iff input.local_service_report in
    (
      λ h.
          let (results, (c, (s, _))) = split.0 (blocking.0 ((passed_if_iff _).0 h)) in
          (results, (core.0 c, services.0 s)),
      λ (results, (c, s)).
          (passed_if_iff _).1 (blocking.1 (split.1 (results, (core.1 c, (services.1 s, tt))))),
    )
