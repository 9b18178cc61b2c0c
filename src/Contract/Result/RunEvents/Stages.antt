-- ===== src/Contract/Result/RunEvents/Stages.antt =====
-- The stages that the events of an accepted successful result pass through.
use choice_mind.Prelude.{
  ℕ, suc, ◌+◌, ◌≤◌, ◌<◌, ◌≡◌, refl, ◌⊎◌, inl, inr, true, false, List, [], ◌∷◌, Option, none, some,
  arith, length, get_last?, All, All-map,
}
use choice_mind.Contract.Types.{
  RunEvent, TaskState, created, completed, task_state_changed, runtime_succeeded,
}
use choice_mind.Contract.Issues.{nil-parts, issue_if-nil, issue_if-not-nil}
use choice_mind.Contract.Result.RunEvents.{
  success_event_issues, authoritative_index, goes_back, stage_issues, middle_issues,
  is_state_completed, is_state_created, is_succeeded, is_state_change,
}

-- The first event stands at an earlier stage than the second, both being stages of a run.
abbrev pub Precedes : RunEvent → RunEvent → Type 0
Precedes e f =
    (i : ℕ) × (j : ℕ) × (authoritative_index e.task_state ≡ some i)
    × (authoritative_index f.task_state ≡ some j)
    × (i < j)

-- Each event stands at an earlier stage than all that follow it.
abbrev pub IsForward : List RunEvent → Type 0
IsForward [] = Unit {0}
IsForward (e ∷ events) = All (Precedes e) events × IsForward events

-- Every event but the last is a change of state.
abbrev pub OnlyChangesBeforeLast : List RunEvent → Type 0
OnlyChangesBeforeLast [] = Unit {0}
OnlyChangesBeforeLast (e ∷ []) = Unit {0}
OnlyChangesBeforeLast (e ∷ f ∷ events) =
    (e.event_type ≡ task_state_changed) × OnlyChangesBeforeLast (f ∷ events)

-- What the events of a success are.
pub record IsSuccessRun (events : List RunEvent) : Type 0 where
  pub forward : IsForward events
  pub changes : OnlyChangesBeforeLast events
  pub first : RunEvent
  pub rest : List RunEvent
  pub starts : events ≡ first ∷ rest
  pub created_first : first.task_state ≡ created
  pub last : RunEvent
  pub last_event : get_last? events ≡ some last
  pub completed_last : last.task_state ≡ completed
  pub succeeded_last : last.event_type ≡ runtime_succeeded
  pub bounded : length events ≤ 10

-- The stages of the events lie above `n`, and rise.
abbrev RisesFrom : ℕ → List RunEvent → Type 0
RisesFrom n [] = Unit {0}
RisesFrom n (e ∷ events) =
    (i : ℕ) × (authoritative_index e.task_state ≡ some i) × (n ≤ i) × RisesFrom (suc i) events

goes_back-false :
    (previous current : Option ℕ)
    → goes_back previous current ≡ false
    → (i : ℕ) × (current ≡ some i) × ((p : ℕ) → previous ≡ some p → p < i)
unfolding goes_back
goes_back-false previous none h = cc
goes_back-false none (some i) h = (i, refl, λ p e. cc)
goes_back-false (some p) (some i) h = (i, refl, λ q e. ground arith)

stage_issues-RisesFrom :
    (previous : Option ℕ) (n i : ℕ) (events : List RunEvent)
    → ((previous ≡ none) × (n ≡ 0)) ⊎ ((p : ℕ) × (previous ≡ some p) × (n ≡ suc p))
    → stage_issues previous i events ≡ []
    → RisesFrom n events
unfolding stage_issues
stage_issues-RisesFrom previous n i [] start h = tt
stage_issues-RisesFrom previous n i (e ∷ events) start h =
    let (here, later) = nil-parts _ _ h in
    let (k, stage, above) = goes_back-false previous _ (issue_if-nil _ _ _ here) in
    (
      k,
      stage,
      elim start [ inl (_, z) ↦ omega arith | inr (p, q, z) ↦ omega (arith, above p q) ],
      stage_issues-RisesFrom (authoritative_index e.task_state) (suc k) (suc i) events
          (inr (k, stage, refl)) later,
    )

RisesFrom-above :
    (n : ℕ) (events : List RunEvent)
    → RisesFrom n events
    → All (λ f. (j : ℕ) × (authoritative_index f.task_state ≡ some j) × (n ≤ j)) events
RisesFrom-above n [] h = tt
RisesFrom-above n (e ∷ events) (i, stage, above, rest) = (
  (i, stage, above),
  All-map (λ f (j, s, b). (j, s, omega arith)) events (RisesFrom-above (suc i) events rest),
)

RisesFrom-IsForward : (n : ℕ) (events : List RunEvent) → RisesFrom n events → IsForward events
RisesFrom-IsForward n [] h = tt
RisesFrom-IsForward n (e ∷ events) (i, stage, above, rest) = (
  All-map (λ f (j, s, b). (i, j, stage, s, b)) events (RisesFrom-above (suc i) events rest),
  RisesFrom-IsForward (suc i) events rest,
)

authoritative_index-lt : (s : TaskState) (i : ℕ) → authoritative_index s ≡ some i → i < 10
unfolding authoritative_index
authoritative_index-lt s i h = ground arith

RisesFrom-length :
    (n : ℕ) (events : List RunEvent) → n ≤ 10 → RisesFrom n events → n + length events ≤ 10
RisesFrom-length n [] b h = omega arith
RisesFrom-length n (e ∷ events) b (i, stage, above, rest) =
    let top = authoritative_index-lt e.task_state i stage in
    omega (arith, RisesFrom-length (suc i) events top rest)

state-change : (e : RunEvent) → is_state_change e ≡ true → e.event_type ≡ task_state_changed
state-change e h = ground arith

middle_issues-OnlyChangesBeforeLast :
    (i : ℕ) (events : List RunEvent) → middle_issues i events ≡ [] → OnlyChangesBeforeLast events
unfolding middle_issues
middle_issues-OnlyChangesBeforeLast i [] h = tt
middle_issues-OnlyChangesBeforeLast i (e ∷ []) h = tt
middle_issues-OnlyChangesBeforeLast i (e ∷ f ∷ events) h =
    let (here, later) = nil-parts _ _ h in
    (
      state-change e (issue_if-not-nil _ _ _ here),
      middle_issues-OnlyChangesBeforeLast (suc i) (f ∷ events) later,
    )

last-completed :
    (o : Option RunEvent)
    → is_state_completed o ≡ true
    → is_succeeded o ≡ true
    → (e : RunEvent) × (o ≡ some e)
      × (e.task_state ≡ completed)
      × (e.event_type ≡ runtime_succeeded)
last-completed none h k = cc
last-completed (some e) h k = (e, refl, ground arith, ground arith)

first-created :
    (events : List RunEvent)
    → is_state_created events ≡ true
    → (e : RunEvent) × (rest : List RunEvent) × (events ≡ e ∷ rest) × (e.task_state ≡ created)
first-created [] h = cc
first-created (e ∷ rest) h = (e, rest, refl, ground arith)

-- The events of a successful result that raise no issue begin with CREATED, end with COMPLETED and
-- RUNTIME_SUCCEEDED, are changes of state before that, and pass through the stages in their order, each at most once; so there are ten at most.
pub success_event_issues-IsSuccessRun :
    (events : List RunEvent) → success_event_issues events ≡ [] → IsSuccessRun events
unfolding success_event_issues
success_event_issues-IsSuccessRun events h =
    let (done, t₁) = nil-parts _ _ h in
    let (ok, t₂) = nil-parts _ _ t₁ in
    let (begun, t₃) = nil-parts _ _ t₂ in
    let (stages, middle) = nil-parts _ _ t₃ in
    let rises = stage_issues-RisesFrom none 0 0 events (inl (refl, refl)) stages in
    let (last, found, state, kind) =
      last-completed _ (issue_if-not-nil _ _ _ done) (issue_if-not-nil _ _ _ ok) in
    let (first, rest, starts, state') = first-created events (issue_if-not-nil _ _ _ begun) in
    record {
      forward = RisesFrom-IsForward 0 events rises;
      changes = middle_issues-OnlyChangesBeforeLast 0 events middle;
      first = first;
      rest = rest;
      starts = starts;
      created_first = state';
      last = last;
      last_event = found;
      completed_last = state;
      succeeded_last = kind;
      bounded = omega (arith, RisesFrom-length 0 events (omega arith) rises);
    }
