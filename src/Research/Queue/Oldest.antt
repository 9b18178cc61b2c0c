-- ===== src/Research/Queue/Oldest.antt =====
-- packages/source-research/src/index.ts: which job `claimNext` hands out.
use choice_mind.Prelude.{
  ℕ, String, ◌+◌, ◌≡◌, ◌≤◌, ◌<◌, ◌⊎◌, ◌↔◌, refl, Bool, true, false, not, ◌&&◌, List, [], ◌∷◌,
  Option, none, some, arith, inl, inr, All, Option-cases, select,
}
use choice_mind.Js.Sorting.{text_lt}
use choice_mind.Research.Tables.{
  queued, running, failed_retryable, JobRow, Database, returned, first_row, job_before, order_by,
}
use choice_mind.Research.Tables.Rows.{
  In, All-every, All-members, All-update_where, All-at, In-select, In-update_where,
}
use choice_mind.Research.Tables.Ordering.{
  job_before-asym, job_before-negative, first_row-Leads, In-order_by,
}
use choice_mind.Research.Queue.{
  empty, claimed, is_lease_duration, is_exhausted, exhaust, is_due, claim_of, retire, next_due,
  claim_row, claim_next,
}
use choice_mind.Research.Queue.Consistent.{next_due-Found}

-- The time is there and has come.
abbrev pub Reached : Option ℕ → ℕ → Type 0
Reached none t = ⊥
Reached (some at) t = at ≤ t

-- A job that may be handed out: new or resumed, waiting for a retry that is due, or left by a worker whose
-- lease has run out, with fewer than five attempts; and no other transaction has it locked.
abbrev pub IsClaimable : (String → Bool) → ℕ → JobRow → Type 0
IsClaimable locked t j =
    (locked j.job_id ≡ false)
    × ((j.state ≡ queued)
        ⊎ (((j.state ≡ failed_retryable) × Reached j.next_attempt_at t)
            ⊎ ((j.state ≡ running) × Reached j.lease_expires_at t × (j.attempt_count < 5))))

is_due_iff :
    (locked : String → Bool) (t : ℕ) (j : JobRow)
    → ((is_due t j && not (locked j.job_id)) ≡ true) ↔ IsClaimable locked t j
unfolding is_due
is_due_iff locked t j = (λ h. ground arith, λ h. ground arith)

-- Retiring the exhausted rows keeps the due ones, and makes none.
module _ (t : ℕ) (jobs : List JobRow) where
  retire-due :
      (locked : Bool) (j : JobRow)
      → (is_due t j && not locked) ≡ true
      → In j jobs
      → In j (retire t jobs)
  unfolding retire
  retire-due locked j due here =
      In-update_where (is_exhausted t) (exhaust t) jobs j
        (unfold is_due is_exhausted in ground arith) here

  due-retire :
      (locked : String → Bool)
      → All (λ k. (is_due t k && not (locked k.job_id)) ≡ true → In k jobs) (retire t jobs)
  unfolding retire
  due-retire locked =
      All-update_where (λ k. In k jobs) _ (is_exhausted t) (exhaust t) jobs
        (All-every _ jobs (λ k i q due. unfold is_due exhaust in absurd (ground arith)))
        (All-every _ jobs (λ k i q due. i)) (All-members jobs jobs (λ k i. i))

-- Created earlier, or at the same time and with an id that does not come later.
abbrev pub IsNotAfter : JobRow → JobRow → Type 0
IsNotAfter j k =
    (j.created_at < k.created_at)
    ⊎ ((j.created_at ≡ k.created_at) × (text_lt k.job_id j.job_id ≡ false))

job_before-IsNotAfter : (j k : JobRow) → job_before k j ≡ false → IsNotAfter j k
unfolding job_before
job_before-IsNotAfter j k h = ground arith

-- The row that `next_due` finds is claimable, and no claimable row goes before it; if it finds none, there
-- is none.
next_due-Oldest :
    (locked : String → Bool) (t : ℕ) (jobs : List JobRow) (j : JobRow)
    → next_due locked t (retire t jobs) ≡ some j
    → In j jobs
      × IsClaimable locked t j
      × ((k : JobRow) → In k jobs → IsClaimable locked t k → job_before k j ≡ false)
next_due-Oldest locked t jobs j e =
    let (here, due) = next_due-Found locked t (retire t jobs) j e in
    (
      All-at (λ k. (is_due t k && not (locked k.job_id)) ≡ true → In k jobs) (retire t jobs) j
          (due-retire t jobs locked) here due,
      (is_due_iff locked t j).0 due,
      λ k i claimable.
          let due' = (is_due_iff locked t k).1 claimable in
          first_row-Leads job_before job_before-asym job_before-negative
            (λ k. is_due t k && not (locked k.job_id)) (retire t jobs) j k (unfold next_due in e)
            (retire-due t jobs (locked k.job_id) k due' i) due',
    )

next_due-none :
    (locked : String → Bool) (t : ℕ) (jobs : List JobRow)
    → next_due locked t (retire t jobs) ≡ none
    → (k : JobRow) → In k jobs
    → ¬ IsClaimable locked t k
next_due-none locked t jobs e k i claimable =
    let due = (is_due_iff locked t k).1 claimable in
    nothing (order_by job_before (select p (retire t jobs))) (unfold next_due in e) (
      In-order_by job_before job_before-asym job_before-negative k (select p (retire t jobs))
        (In-select p (retire t jobs) k due (retire-due t jobs (locked k.job_id) k due i)))
  where
    p : JobRow → Bool
    p k = is_due t k && not (locked k.job_id)

    nothing : (l : List JobRow) → first_row l ≡ none → In k l → ⊥
    nothing [] h j = j
    nothing (x ∷ l) h j = cc

-- With a valid lease duration, `claimNext` hands out a claimable job that is not after any claimable job (by
-- creation time, then by id); the claim has the data of that row, the worker's id and one more attempt. It
-- answers that the queue is empty only if no job is claimable.
pub claim_next-Oldest :
    (locked : String → Bool) (worker_id : String) (ms t : ℕ) (db : Database)
    → is_lease_duration ms ≡ true
    → (((claim_next locked worker_id ms t db).0 ≡ returned empty)
        × ((k : JobRow) → In k db.jobs → ¬ IsClaimable locked t k))
      ⊎ ((j : JobRow) × ((claim_next locked worker_id ms t db).0
            ≡ returned (
                claimed (record {
                  job_id = j.job_id;
                  batch_id = j.batch_id;
                  owner_user_id = j.owner_user_id;
                  decision_task_id = j.decision_task_id;
                  query = j.query;
                  source_id = j.source_id;
                  source_account_id = j.source_account_id;
                  checkpoint = j.checkpoint;
                  worker_id = worker_id;
                  attempt_count = j.attempt_count + 1;
                })))
          × In j db.jobs
          × IsClaimable locked t j
          × ((k : JobRow) → In k db.jobs → IsClaimable locked t k → IsNotAfter j k))
unfolding claim_next claim_row claim_of
claim_next-Oldest locked worker_id ms t db valid =
    elim (Option-cases (next_due locked t (retire t db.jobs))) [
      | inl e ↦ inl (rw (valid, e) refl, next_due-none locked t db.jobs e)
      | inr (j, e) ↦
          let (here, claimable, first) = next_due-Oldest locked t db.jobs j e in
          inr (
            j,
            rw (valid, e) refl,
            here,
            claimable,
            λ k i c. job_before-IsNotAfter j k (first k i c),
          )
    ]
