-- ===== src/Contract/Result/RunEvents/Numbering.antt =====
-- What the run events of an accepted result are.
use choice_mind.Prelude.{
  ℕ, suc, String, ◌+◌, ◌≡◌, refl, true, List, [], ◌∷◌, map, Option, none, some, arith, eq_iff,
  eqb_iff, length, get_last?, All,
}
use choice_mind.Contract.Types.{Timestamp, RunEvent}
use choice_mind.Contract.Issues.{
  nil-parts, issue_if-not-nil, AllFrom, AllFrom-map, flat_map_from-eq-nil,
  collect_unique_ids-eq-nil,
}
use choice_mind.Js.Sets.{Distinct}
use choice_mind.Contract.Result.RunEvents.{
  run_event_issues, ownership_issues, has_sequence, has_time,
}

-- The events of a run of a task, as its status says: numbered from 1 with no gap, each with an id of its
-- own, all of this task and run, the last as late as the status.
pub record IsRunOf (decision_task_id agent_run_id : String) (latest_event_sequence : ℕ)
    (updated_at : Timestamp) (events : List RunEvent) : Type 0 where
  pub distinct : Distinct (map (λ e. e.event_id) events)
  pub numbered : AllFrom (λ i e. e.sequence ≡ i + 1) 0 events
  pub owned :
      All (λ e. (e.decision_task_id ≡ decision_task_id) × (e.agent_run_id ≡ agent_run_id)) events
  pub counted : latest_event_sequence ≡ length events
  pub last : RunEvent
  pub last_event : get_last? events ≡ some last
  pub last_time : updated_at.text ≡ last.occurred_at.text

owned_of_ownership :
    (decision_task_id agent_run_id : String) (i : ℕ) (e : RunEvent)
    → ownership_issues decision_task_id agent_run_id i e ≡ []
    → (e.sequence ≡ i + 1)
      × (e.decision_task_id ≡ decision_task_id)
      × (e.agent_run_id ≡ agent_run_id)
unfolding ownership_issues
owned_of_ownership decision_task_id agent_run_id i e h =
    let (a, t) = nil-parts _ _ h in
    let (b, c) = nil-parts _ _ t in
    (
      (eqb_iff _ _).0 (issue_if-not-nil _ _ _ a),
      (eq_iff _ _).0 (issue_if-not-nil _ _ _ b),
      (eq_iff _ _).0 (issue_if-not-nil _ _ _ c),
    )

All-of-AllFrom :
    {A : Type 0} (P : A → Type 0) (i : ℕ) (xs : List A) → AllFrom (λ j x. P x) i xs → All P xs
All-of-AllFrom P i [] h = tt
All-of-AllFrom P i (x ∷ xs) (h, t) = (h, All-of-AllFrom P (suc i) xs t)

-- In events numbered on from `i`, the last has the number of all.
last-sequence :
    (i : ℕ) (events : List RunEvent) (last : RunEvent)
    → AllFrom (λ j e. e.sequence ≡ j + 1) i events
    → get_last? events ≡ some last
    → last.sequence ≡ i + length events
last-sequence i [] last h e = cc
last-sequence i (x ∷ []) last (h, t) e = ground arith
last-sequence i (x ∷ y ∷ events) last (h, t) e =
    omega (arith, last-sequence (suc i) (y ∷ events) last t e)

has_sequence-some :
    (o : Option RunEvent) (n : ℕ)
    → has_sequence o n ≡ true
    → (e : RunEvent) × (o ≡ some e) × (n ≡ e.sequence)
has_sequence-some none n h = cc
has_sequence-some (some e) n h = (e, refl, (eqb_iff _ _).0 h)

has_time-some :
    (o : Option RunEvent) (e : RunEvent) (t : Timestamp)
    → o ≡ some e
    → has_time o t ≡ true
    → t.text ≡ e.occurred_at.text
has_time-some none e t s h = cc
has_time-some (some x) e t s h = ground (arith, eq_iff t.text x.occurred_at.text)

-- Run events that raise no issue have distinct ids, are numbered from 1 on, and belong to the task and
-- the run of the status, whose latest sequence is their number and whose time of update is that of the
-- last one.
pub run_event_issues-IsRunOf :
    (decision_task_id agent_run_id : String) (latest_event_sequence : ℕ) (updated_at : Timestamp)
    (events : List RunEvent)
    → run_event_issues decision_task_id agent_run_id latest_event_sequence updated_at events ≡ []
    → IsRunOf decision_task_id agent_run_id latest_event_sequence updated_at events
unfolding run_event_issues
run_event_issues-IsRunOf task run latest updated events h =
    let (ids, t₁) = nil-parts _ _ h in
    let (owners, t₂) = nil-parts _ _ t₁ in
    let (latest_ok, time_ok) = nil-parts _ _ t₂ in
    let each =
      AllFrom-map (owned_of_ownership task run) 0 events
        ((flat_map_from-eq-nil _ 0 events).0 owners) in
    let numbers =
      AllFrom-map
        {P = λ i e. (e.sequence ≡ i + 1) × (e.decision_task_id ≡ task) × (e.agent_run_id ≡ run)}
        (λ i e p. p.0) 0 events each in
    let (last, found, same) = has_sequence-some _ latest (issue_if-not-nil _ _ _ latest_ok) in
    record {
      distinct = (collect_unique_ids-eq-nil _ _ _ _ events).0 ids;
      numbered = numbers;
      owned = All-of-AllFrom _ 0 events (
          AllFrom-map
            {P = λ i e. (e.sequence ≡ i + 1) × (e.decision_task_id ≡ task) × (e.agent_run_id ≡ run)}
            (λ i e p. (p.1, p.2)) 0 events each);
      counted = omega (arith, same, last-sequence 0 events last numbers found);
      last = last;
      last_event = found;
      last_time = has_time-some _ last updated found (issue_if-not-nil _ _ _ time_ok);
    }
