-- ===== src/Research/Views/State.antt =====
-- packages/source-research/src/index.ts: the state of a batch and the states of its jobs.
use choice_mind.Prelude.{
  ◌≡◌, ◌≢◌, ◌⊎◌, refl, inl, inr, true, false, ◌&&◌, ◌||◌, List, [], ◌∷◌, arith, All, Any, any, all,
  any_iff, all_iff, All-map, Any-map, Bool-cases,
}
use choice_mind.Research.Tables.{
  JobState, queued, running, waiting_source_login, completed, no_result, failed_retryable,
  failed_final, BatchState, is_running, is_waiting, is_completed, is_no_result, is_failed_final,
}
use choice_mind.Research.Tables.Rows.{any-false, All-both}
use choice_mind.Research.Views.{batch_state, is_terminal}

-- Nothing more will happen to the job by itself.
abbrev pub IsOver : JobState → Type 0
IsOver s = (s ≡ completed) ⊎ ((s ≡ no_result) ⊎ (s ≡ failed_final))

-- What a batch's state says of its jobs.
abbrev pub Means : List JobState → BatchState → Type 0
Means states BatchState.waiting_source_login = Any (λ s. s ≡ waiting_source_login) states
Means states BatchState.failed = All IsOver states × Any (λ s. s ≡ failed_final) states
Means states BatchState.completed = All (λ s. (s ≡ completed) ⊎ (s ≡ no_result)) states
Means states BatchState.running =
    All (λ s. s ≢ waiting_source_login) states × Any (λ s. s ≡ running) states
Means states BatchState.queued =
    All (λ s. (s ≢ waiting_source_login) × (s ≢ running)) states
    × Any (λ s. (s ≡ queued) ⊎ (s ≡ failed_retryable)) states

-- Among jobs that neither wait nor run, some is over, or some is still to be claimed.
pending :
    (states : List JobState)
    → any is_waiting states ≡ false
    → any is_running states ≡ false
    → (all is_terminal states && any is_failed_final states) ≡ false
    → all (λ s. is_completed s || is_no_result s) states ≡ false
    → Any (λ s. (s ≡ queued) ⊎ (s ≡ failed_retryable)) states
pending states w r f c = elim (Bool-cases (all is_terminal states)) [
  | inl over ↦ absurd (ground (arith, finished states over))
  | inr not_over ↦ unfinished states w r not_over
]
  where
    finished :
        (ss : List JobState)
        → all is_terminal ss ≡ true
        → (any is_failed_final ss ≡ true) ⊎ (all (λ s. is_completed s || is_no_result s) ss ≡ true)
    finished [] h = inr refl
    finished (s ∷ ss) h = let ih = finished ss (ground arith) in ground arith

    unfinished :
        (ss : List JobState)
        → any is_waiting ss ≡ false
        → any is_running ss ≡ false
        → all is_terminal ss ≡ false
        → Any (λ s. (s ≡ queued) ⊎ (s ≡ failed_retryable)) ss
    unfinished [] a b h = cc
    unfinished (queued ∷ ss) a b h = inl (inl refl)
    unfinished (failed_retryable ∷ ss) a b h = inl (inr refl)
    unfinished (running ∷ ss) a b h = cc
    unfinished (waiting_source_login ∷ ss) a b h = cc
    unfinished (completed ∷ ss) a b h = inr (unfinished ss a b h)
    unfinished (no_result ∷ ss) a b h = inr (unfinished ss a b h)
    unfinished (failed_final ∷ ss) a b h = inr (unfinished ss a b h)

-- A batch waits for a login if one of its jobs does; it has failed if all its jobs are over and one has
-- failed for good; it is completed if every job is, or has no result; it runs if no job waits and one runs;
-- otherwise it is queued: no job waits or runs, and one is queued or to be tried again.
pub batch_state-Means : (states : List JobState) → Means states (batch_state states)
unfolding batch_state
batch_state-Means states = elim (Bool-cases (any is_waiting states)) [
  | inl w ↦ rw w (Any-map (λ s h. ground arith) states ((any_iff is_waiting states).0 w))
  | inr w ↦ elim (Bool-cases (all is_terminal states && any is_failed_final states)) [
    | inl f ↦
        rw (w, f)
          (
            All-map (λ s h. ground arith) states ((all_iff is_terminal states).0 (ground arith)),
            Any-map (λ s h. ground arith) states
                ((any_iff is_failed_final states).0 (ground arith)),
          )
    | inr f ↦ elim (Bool-cases (all (λ s. is_completed s || is_no_result s) states)) [
      | inl c ↦
          rw (w, f, c)
            (All-map (λ s h. ground arith) states
              ((all_iff (λ s. is_completed s || is_no_result s) states).0 c))
      | inr c ↦ elim (Bool-cases (any is_running states)) [
        | inl r ↦
            rw (w, f, c, r)
              (
                All-map (λ s h. ground arith) states (any-false is_waiting states w),
                Any-map (λ s h. ground arith) states ((any_iff is_running states).0 r),
              )
        | inr r ↦
            rw (w, f, c, r)
              (
                All-map (λ s h. ground arith) states
                    (All-both _ _ states (any-false is_waiting states w)
                      (any-false is_running states r)),
                pending states w r f c,
              )
      ]
    ]
  ]
]
