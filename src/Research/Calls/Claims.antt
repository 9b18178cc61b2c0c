-- ===== src/Research/Calls/Claims.antt =====
-- packages/source-research/src/index.ts: a job's attempts are the times that it was handed out.
use choice_mind.Prelude.{
  ℕ, String, ◌+◌, ◌≡◌, ◌≤◌, refl, sym, subst, ◌∙◌, Bool, true, false, List, [], ◌∷◌, ◌++◌, arith,
  inl, inr, All, All-map, All-append, Bool-cases, Option-cases, if◌then◌else◌, ◌==◌, eq_iff, any,
}
use choice_mind.Research.Tables.{JobRow, Database, ResearchClaim, Outcome, returned, update_where}
use choice_mind.Research.Tables.Rows.{
  In, All-every, All-both, All-select, All-update_where, All-members,
}
use choice_mind.Research.Queue.{
  ClaimResult, claimed, is_lease_duration, is_exhausted, exhaust, start, claim_of, retire, next_due,
  claim_row, claim_next, holds_lease, renew_lease, save_checkpoint, finish_job, finish_row,
}
use choice_mind.Research.Queue.Ending.{complete_rule}
use choice_mind.Research.Batches.{
  Platform, new_job, resume_source, waits_for, requeue, purge_private_data_for_owner,
}
use choice_mind.Research.Batches.Inserting.{create_batch_rule}
use choice_mind.Research.Calls.{
  Call, create, resume, claim, renew, save, finish, purge, apply, run, no_rows,
}
use choice_mind.Research.Calls.Attempts.{resumptions, run-IsCounted}

abbrev pub has_job : String → List JobRow → Bool
has_job id jobs = any (λ j. j.job_id == id) jobs

-- 1 if the answer hands the job of the id out.
abbrev pub hands_out : String → Outcome ClaimResult → ℕ
hands_out id (returned (claimed c)) = if c.job_id == id then 1 else 0
hands_out id _ = 0

abbrev pub handed_by : Call → Database → String → ℕ
handed_by (claim locked worker_id ms t) db id = hands_out id (claim_next locked worker_id ms t db).0
handed_by _ db id = 0

-- After so many times so far: how often these calls hand the job of the id out, counted anew from zero
-- when there is no such job.
abbrev pub times_handed_out : Platform → String → List Call → Database → ℕ → ℕ
times_handed_out platform id [] db n = n
times_handed_out platform id (c ∷ cs) db n =
    times_handed_out platform id cs (apply platform c db)
      (if has_job id (apply platform c db).jobs then n + handed_by c db id else 0)

-- Every job has as many attempts as this says of its id.
abbrev Tallied : (String → ℕ) → List JobRow → Type 0
Tallied n jobs = All (λ j. j.attempt_count ≡ n j.job_id) jobs

update_where-Tallied :
    (n : String → ℕ) (p : JobRow → Bool) (f : JobRow → JobRow) (jobs : List JobRow)
    → ((j : JobRow) → ((f j).attempt_count ≡ j.attempt_count) × ((f j).job_id ≡ j.job_id))
    → Tallied n jobs
    → Tallied n (update_where p f jobs)
update_where-Tallied n p f jobs keeps h =
    All-update_where (λ j. j.attempt_count ≡ n j.job_id) _ p f jobs
      (All-every _ jobs
        (λ j c q. (keeps j).0 ∙ (c ∙ subst (λ id. n j.job_id ≡ n id) (sym (keeps j).1) refl)))
      (All-every _ jobs (λ j c _. c)) h

claim_row-Tallied :
    (n : String → ℕ) (locked : String → Bool) (worker_id : String) (ms t : ℕ) (jobs : List JobRow)
    → Tallied n jobs
    → let answer = claim_row worker_id ms t jobs (next_due locked t jobs) in
      Tallied (λ id. n id + hands_out id (returned answer.0)) answer.1
unfolding claim_row
claim_row-Tallied n locked worker_id ms t jobs h = elim (Option-cases (next_due locked t jobs)) [
  | inl e ↦ rw e (All-map (λ j c. omega (arith, c)) jobs h)
  | inr (j, e) ↦ rw e (
      All-update_where (λ k. k.attempt_count ≡ n k.job_id) _ (λ k. k.job_id == j.job_id)
        (start worker_id ms t) jobs
        (All-every _ jobs (λ k c q.
          unfold start claim_of in
          ground (arith, c, q, eq_iff k.job_id j.job_id, eq_iff j.job_id k.job_id)))
        (All-every _ jobs (λ k c q.
          unfold claim_of in
          ground (arith, c, q, eq_iff k.job_id j.job_id, eq_iff j.job_id k.job_id)))
        h)
]

claim_next-Tallied :
    (n : String → ℕ) (locked : String → Bool) (worker_id : String) (ms t : ℕ) (db : Database)
    → Tallied n db.jobs
    → Tallied
        (λ id. n id + hands_out id (claim_next locked worker_id ms t db).0)
        (claim_next locked worker_id ms t db).1.jobs
unfolding claim_next
claim_next-Tallied n locked worker_id ms t db h = elim (Bool-cases (is_lease_duration ms)) [
  | inr e ↦ rw e (All-map (λ j c. omega (arith, c)) db.jobs h)
  | inl e ↦ rw e (
      claim_row-Tallied n locked worker_id ms t (retire t db.jobs) (
        unfold retire in
        update_where-Tallied n (is_exhausted t) (exhaust t) db.jobs
          (λ j. unfold exhaust in (refl, refl)) h))
]

renew_lease-Tallied :
    (n : String → ℕ) (c : ResearchClaim) (ms t : ℕ) (db : Database)
    → Tallied n db.jobs
    → Tallied n (renew_lease c ms t db).1.jobs
unfolding renew_lease
renew_lease-Tallied n c ms t db h = elim (Bool-cases (is_lease_duration ms)) [
  | inl e ↦ rw e (update_where-Tallied n (holds_lease c t) _ db.jobs (λ j. (refl, refl)) h)
  | inr e ↦ rw e h
]

plus_nothing :
    (n : String → ℕ) (jobs : List JobRow) → Tallied n jobs → Tallied (λ id. n id + 0) jobs
plus_nothing n jobs h = All-map (λ j c. omega (arith, c)) jobs h

-- What one call adds to the attempts, where an id without a job counts nothing.
apply-Tallied :
    (platform : Platform) (n : String → ℕ) (c : Call) (db : Database)
    → ((id : String) → has_job id db.jobs ≡ false → n id ≡ 0)
    → Tallied n db.jobs
    → Tallied (λ id. n id + handed_by c db id) (apply platform c db).jobs
unfolding apply
apply-Tallied platform n (create new_id clock command t) db absent h =
    plus_nothing n _
      (create_batch_rule
        (λ jobs _. Tallied n jobs × ((id : String) → has_job id jobs ≡ false → n id ≡ 0))
        (λ jobs results batch id clock' s free (ok, none_). (
          (All-append _ jobs (new_job batch id clock' s ∷ [])).1
              (ok, (unfold new_job in sym (none_ id free), tt)),
          λ id' gone. none_ id' (fewer id' jobs _ gone),
        ))
        platform new_id clock command t db (h, absent)).0
  where
    fewer :
        (id : String) (jobs : List JobRow) (j : JobRow)
        → has_job id (jobs ++ j ∷ []) ≡ false
        → has_job id jobs ≡ false
    fewer id [] j e = refl
    fewer id (k ∷ jobs) j e = ground (arith, fewer id jobs j)
apply-Tallied platform n (resume command t) db absent h = plus_nothing n _ (
    unfold resume_source in
    update_where-Tallied n (waits_for command) (requeue t) db.jobs
      (λ j. unfold requeue in (refl, refl)) h)
apply-Tallied platform n (claim locked worker_id ms t) db absent h =
    claim_next-Tallied n locked worker_id ms t db h
apply-Tallied platform n (renew c' ms t) db absent h =
    plus_nothing n _ (renew_lease-Tallied n c' ms t db h)
apply-Tallied platform n (save c' checkpoint t) db absent h = plus_nothing n _ (
    unfold save_checkpoint in
    update_where-Tallied n (holds_lease c' t) _ db.jobs (λ j. (refl, refl)) h)
apply-Tallied platform n (finish c' outcome locked_at t) db absent h = plus_nothing n _ (
    complete_rule c' outcome locked_at t db (Tallied n) h λ j here held s open_ o cost next.
      unfold finish_job in
      update_where-Tallied n _ (finish_row s t o cost next) db.jobs
        (λ k. unfold finish_row in (refl, refl)) h)
apply-Tallied platform n (purge owner_user_id) db absent h = plus_nothing n _ (
    unfold purge_private_data_for_owner in
    All-map (λ j q. q.0) _ (All-select (λ j. j.attempt_count ≡ n j.job_id) _ db.jobs h))

In-has_job : (jobs : List JobRow) (j : JobRow) → In j jobs → has_job j.job_id jobs ≡ true
In-has_job [] j i = absurd i
In-has_job (k ∷ jobs) j (inl e) = rw e (rw ((eq_iff j.job_id j.job_id).1 refl) refl)
In-has_job (k ∷ jobs) j (inr i) = ground (arith, In-has_job jobs j i)

run-Tallied :
    (platform : Platform) (n : String → ℕ) (cs : List Call) (db : Database)
    → ((id : String) → has_job id db.jobs ≡ false → n id ≡ 0)
    → Tallied n db.jobs
    → Tallied (λ id. times_handed_out platform id cs db (n id)) (run platform cs db).jobs
unfolding run
run-Tallied platform n [] db absent h = h
run-Tallied platform n (c ∷ cs) db absent h =
    let jobs = (apply platform c db).jobs in
    run-Tallied platform (λ id. if has_job id jobs then n id + handed_by c db id else 0) cs
      (apply platform c db) (λ id gone. rw gone refl)
      (All-map (λ j (c', i). rw (In-has_job jobs j i) c') jobs
        (All-both _ _ jobs (apply-Tallied platform n c db absent h)
          (All-members jobs jobs (λ x i. i))))

-- Whatever calls are made from empty tables on, the attempts of every job that is there are exactly the
-- times that it was handed out since it was created, and these number at most five and one for each call
-- that resumed a source: retries end.
pub run-attempts_bounded :
    (platform : Platform) (cs : List Call)
    → All
        (λ j.
          (j.attempt_count ≡ times_handed_out platform j.job_id cs no_rows 0)
          × (times_handed_out platform j.job_id cs no_rows 0 ≤ 5 + resumptions cs))
        (run platform cs no_rows).jobs
run-attempts_bounded platform cs =
    All-map (λ j (same, c). (same, omega (arith, c.tried, same))) _
      (All-both _ _ _ (run-Tallied platform (λ id. 0) cs no_rows (λ id e. refl) tt) (
        run-IsCounted platform 0 cs no_rows
          (record { sound = tt; unique_ids = tt; recorded = tt; once = tt }) tt))
