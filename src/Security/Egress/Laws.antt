-- ===== src/Security/Egress/Laws.antt =====
-- What the egress guard lets out, and what it has recorded before.
use choice_mind.Prelude.{
  String, ◌≡◌, ◌≢◌, ◌↔◌, ◌⊎◌, inl, inr, Bool, true, [], ◌∷◌, Option, none, some, arith, eq_iff,
  Option-cases,
}
use choice_mind.Js.Sets.{In}
use choice_mind.Security.RiskPolicy.{
  Operation, read_public_source, read_private_source, invoke_provider, write_external, allow, deny,
  Confirmation, PolicyInput, confirms, decide_policy, evaluate_risk_policy, policy_version,
}
use choice_mind.Security.Egress.{
  EgressRecord, EgressInput, EgressStamp, EgressEnvironment, appended, performed, refused,
  effective_operation, egress_record, egress_policy, execute,
}

-- The confirmation that a private read or a provider call needs.
abbrev pub confirmation_for : PolicyInput → Confirmation
confirmation_for input = record { operation_id = input.operation_id; user_id = input.user_id }

confirms_iff :
    (c : Option Confirmation) (operation_id user_id : String)
    → (confirms c operation_id user_id ≡ true)
      ↔ (c ≡ some (record { operation_id = operation_id; user_id = user_id }))
unfolding confirms
confirms_iff none operation_id user_id = (λ h. cc, λ h. cc)
confirms_iff (some c) operation_id user_id =
    ground (arith, eq_iff c.operation_id operation_id, eq_iff c.user_id user_id)

decide_policy_iff :
    (o : Operation) (b : Bool)
    → (decide_policy o b ≡ allow) ↔ (
        (o ≡ read_public_source)
        ⊎ (((o ≡ read_private_source) ⊎ (o ≡ invoke_provider)) × (b ≡ true)))
unfolding decide_policy
decide_policy_iff write_external b = ground arith
decide_policy_iff read_public_source b = ground arith
decide_policy_iff read_private_source b = ground arith
decide_policy_iff invoke_provider b = ground arith

-- The policy allows an operation exactly when it is a public read, or a private read or a provider
-- call whose confirmation names this very operation and user.
pub evaluate_risk_policy-allow_iff :
    (input : PolicyInput)
    → ((evaluate_risk_policy input).decision ≡ allow) ↔ (
        (input.operation ≡ read_public_source)
        ⊎ (((input.operation ≡ read_private_source) ⊎ (input.operation ≡ invoke_provider))
            × (input.confirmation ≡ some (confirmation_for input))))
unfolding evaluate_risk_policy
evaluate_risk_policy-allow_iff input =
    let o =
      decide_policy_iff input.operation
        (confirms input.confirmation input.operation_id input.user_id) in
    let c = confirms_iff input.confirmation input.operation_id input.user_id in ground (arith, o, c)

-- A method that only reads, in capital letters.
abbrev pub IsReading : String → Type 0
IsReading method = (method ≡ "GET") ⊎ (method ≡ "HEAD")

-- A read with a reading method, or a provider call; all but a public read with the confirmation of this
-- operation by this user.
abbrev pub IsPermitted : EgressEnvironment → EgressInput → Type 0
IsPermitted environment input =
    ((input.operation ≡ read_public_source) × IsReading (environment.to_upper_case input.method))
    ⊎ ((((input.operation ≡ read_private_source)
            × IsReading (environment.to_upper_case input.method))
          ⊎ (input.operation ≡ invoke_provider))
        × (input.confirmation
            ≡ some (record { operation_id = input.operation_id; user_id = input.user_id })))

-- What has to be on record before the operation runs.
abbrev pub announcement : EgressEnvironment → EgressInput → EgressStamp → String → EgressRecord
announcement environment input stamp origin = record {
  egress_id = stamp.egress_id;
  user_id = input.user_id;
  operation_id = input.operation_id;
  correlation_id = input.correlation_id;
  destination_origin = origin;
  method = environment.to_upper_case input.method;
  policy_version = policy_version;
  state = "STARTED";
  occurred_at = stamp.occurred_at;
}

-- The operation is permitted, the address parses, and the record of it is accepted.
abbrev pub IsLetOut : EgressEnvironment → EgressInput → EgressStamp → String → Type 0
IsLetOut environment input stamp origin =
    (environment.url_origin input.destination_url ≡ some origin)
    × (IsPermitted environment input
        × (environment.append_accepts (announcement environment input stamp origin) ≡ true))

effective_operation-public_iff :
    (method : String) (o : Operation)
    → (effective_operation method o ≡ read_public_source)
      ↔ ((o ≡ read_public_source) × IsReading method)
unfolding effective_operation
effective_operation-public_iff method o = ground (arith, eq_iff method "GET", eq_iff method "HEAD")

effective_operation-private_iff :
    (method : String) (o : Operation)
    → (effective_operation method o ≡ read_private_source)
      ↔ ((o ≡ read_private_source) × IsReading method)
unfolding effective_operation
effective_operation-private_iff method o = ground (arith, eq_iff method "GET", eq_iff method "HEAD")

effective_operation-provider_iff :
    (method : String) (o : Operation)
    → (effective_operation method o ≡ invoke_provider) ↔ (o ≡ invoke_provider)
unfolding effective_operation
effective_operation-provider_iff method o = ground arith

egress_policy-IsPermitted :
    (environment : EgressEnvironment) (input : EgressInput)
    → (egress_policy environment input ≡ allow) ↔ IsPermitted environment input
egress_policy-IsPermitted environment input =
    let m = environment.to_upper_case input.method in
    let o = effective_operation m input.operation in
    let policy = evaluate_risk_policy-allow_iff (record {
      operation = o;
      operation_id = input.operation_id;
      user_id = input.user_id;
      confirmation = input.confirmation;
    }) in
    ground (
      arith,
      policy,
      effective_operation-public_iff m input.operation,
      effective_operation-private_iff m input.operation,
      effective_operation-provider_iff m input.operation,
    )

module _ {T : Type 0} (environment : EgressEnvironment) where
  open environment use {to_upper_case, url_origin, append_accepts}

  -- The operation runs exactly when it is permitted (a read with GET or HEAD, or a provider call, and for
  -- all but a public read with the confirmation of this operation by this user), the address parses and the
  -- record of it is accepted. Then the only effect before it is that record, which names this user, this
  -- operation, this method and the origin that is reached. Otherwise there is no effect at all.
  pub execute-performed_iff :
      (input : EgressInput) (stamp : EgressStamp) (perform : Option T)
      → let effects = (execute environment input stamp perform).1 in
        (In performed effects ↔ ((origin : String) × IsLetOut environment input stamp origin))
        × (((origin : String)
              → IsLetOut environment input stamp origin
              → effects ≡ appended (announcement environment input stamp origin) ∷ performed ∷ [])
            × ((¬ In performed effects) → effects ≡ []))
  unfolding execute egress_record
  execute-performed_iff input stamp perform =
      let policy = egress_policy-IsPermitted environment input in
      (
        (
          λ h. elim (Option-cases (url_origin input.destination_url)) [
            | inl e ↦ absurd (ground arith)
            | inr (origin, e) ↦ (origin, (e, (policy.0 (ground arith), ground arith)))
          ],
          λ (origin, (parsed, (permitted, accepted))).
              let allowed = policy.1 permitted in ground arith,
        ),
        (
          λ origin (parsed, (permitted, accepted)).
              let allowed = policy.1 permitted in ground arith,
          λ n. elim (Option-cases (url_origin input.destination_url)) [
            | inl e ↦ ground arith
            | inr (origin, e) ↦ ground arith
          ],
        ),
      )

  -- A method other than GET and HEAD, on anything but a provider call, is denied with no effect,
  -- whatever the confirmation.
  pub execute-write_denied :
      (input : EgressInput) (stamp : EgressStamp) (perform : Option T)
      → to_upper_case input.method ≢ "GET"
      → to_upper_case input.method ≢ "HEAD"
      → input.operation ≢ invoke_provider
      → execute environment input stamp perform ≡ (refused deny, [])
  unfolding execute evaluate_risk_policy effective_operation
  execute-write_denied input stamp perform get head provider =
      ground (
        arith,
        eq_iff (to_upper_case input.method) "GET",
        eq_iff (to_upper_case input.method) "HEAD",
      )
