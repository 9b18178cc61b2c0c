-- ===== src/Research/Queue/Attempts.antt =====
-- packages/source-research/src/index.ts: how often a job is claimed.
use choice_mind.Prelude.{
  ℕ, String, ◌+◌, ◌≡◌, ◌≤◌, refl, sym, subst, Bool, true, not, ◌&&◌, List, Option, arith, inl, inr,
  All, All-map, Bool-cases, Option-cases,
}
use choice_mind.Research.Tables.{
  queued, ResearchOutcome, JobRow, ResultRow, Database, ResearchClaim, update_where,
}
use choice_mind.Research.Tables.Rows.{All-every, All-at, All-update_where}
use choice_mind.Research.Queue.{
  is_lease_duration, is_exhausted, exhaust, is_due, start, retire, next_due, claim_row, claim_next,
  holds_lease, renew_lease, save_checkpoint, complete, finish_row, finish_job,
}
use choice_mind.Research.Queue.Consistent.{next_due-Found, retire-IsConsistent}
use choice_mind.Research.Queue.Ending.{complete_rule}
use choice_mind.Research.Consistency.Updates.{by_id}
use choice_mind.Research.Consistency.{IsSound, IsConsistent}

-- With so many resumptions so far: five attempts, and one more for each, of which a queued job has one left.
pub record IsCounted (resumed : ℕ) (j : JobRow) : Type 0 where
  pub tried : j.attempt_count ≤ 5 + resumed
  pub left : j.state ≡ queued → j.attempt_count ≤ 4 + resumed

-- An update that neither adds attempts nor queues.
pub update_where-IsCounted :
    (r : ℕ) (p : JobRow → Bool) (f : JobRow → JobRow) (jobs : List JobRow)
    → ((j : JobRow)
        → p j ≡ true
        → ((f j).attempt_count ≡ j.attempt_count) × ((f j).state ≡ queued → j.state ≡ queued))
    → All (IsCounted r) jobs
    → All (IsCounted r) (update_where p f jobs)
update_where-IsCounted r p f jobs keeps h =
    All-update_where (IsCounted r) (IsCounted r) p f jobs
      (All-every _ jobs (λ j c q. record {
        tried = subst (λ n. n ≤ 5 + r) (sym (keeps j q).0) c.tried;
        left = λ e. subst (λ n. n ≤ 4 + r) (sym (keeps j q).0) (c.left ((keeps j q).1 e));
      }))
      (All-every _ jobs (λ j c _. c)) h

-- A due job has an attempt left.
due-left :
    (r t : ℕ) (locked : Bool) (j : JobRow)
    → (is_due t j && not locked) ≡ true
    → IsSound j
    → IsCounted r j
    → j.attempt_count ≤ 4 + r
unfolding is_due
due-left r t locked j due s c = ground arith

start-IsCounted :
    (r : ℕ) (worker_id : String) (ms t : ℕ) (j : JobRow)
    → j.attempt_count ≤ 4 + r
    → IsCounted r (start worker_id ms t j)
unfolding start
start-IsCounted r worker_id ms t j h = record { tried = omega arith; left = λ e. cc }

module _ (r t : ℕ) where
  retire-IsCounted :
      (jobs : List JobRow) → All (IsCounted r) jobs → All (IsCounted r) (retire t jobs)
  unfolding retire
  retire-IsCounted jobs h =
      update_where-IsCounted r (is_exhausted t) (exhaust t) jobs (λ j q. (refl, λ e. cc)) h

  claim_row-IsCounted :
      (locked : String → Bool) (worker_id : String) (ms : ℕ) (jobs : List JobRow)
      (results : List ResultRow)
      → IsConsistent jobs results
      → All (IsCounted r) jobs
      → All (IsCounted r) (claim_row worker_id ms t jobs (next_due locked t jobs)).1
  unfolding claim_row
  claim_row-IsCounted locked worker_id ms jobs results c h =
      elim (Option-cases (next_due locked t jobs)) [
        | inl e ↦ rw e h
        | inr (j, e) ↦
            let (here, due) = next_due-Found locked t jobs j e in
            let left =
              due-left r t (locked j.job_id) j due (All-at IsSound jobs j c.sound here)
                (All-at (IsCounted r) jobs j h here) in
            rw e (
              All-update_where (IsCounted r) (IsCounted r) _ (start worker_id ms t) jobs
                (All-map (λ k few _ q. start-IsCounted r worker_id ms t k (few q)) jobs
                  (by_id (λ k. k.attempt_count ≤ 4 + r) jobs j j.job_id c.unique_ids here refl
                    left))
                (All-every _ jobs (λ k ok _. ok)) h)
      ]

  pub claim_next-IsCounted :
      (locked : String → Bool) (worker_id : String) (ms : ℕ) (db : Database)
      → IsConsistent db.jobs db.results
      → All (IsCounted r) db.jobs
      → All (IsCounted r) (claim_next locked worker_id ms t db).1.jobs
  unfolding claim_next
  claim_next-IsCounted locked worker_id ms db c h = elim (Bool-cases (is_lease_duration ms)) [
    | inl e ↦ rw e (
        claim_row-IsCounted locked worker_id ms (retire t db.jobs) db.results
          (retire-IsConsistent t db.jobs db.results c) (retire-IsCounted db.jobs h))
    | inr e ↦ rw e h
  ]

pub renew_lease-IsCounted :
    (r : ℕ) (claim : ResearchClaim) (ms t : ℕ) (db : Database)
    → All (IsCounted r) db.jobs
    → All (IsCounted r) (renew_lease claim ms t db).1.jobs
unfolding renew_lease
renew_lease-IsCounted r claim ms t db h = elim (Bool-cases (is_lease_duration ms)) [
  | inl e ↦
      rw e (update_where-IsCounted r (holds_lease claim t) _ db.jobs (λ j q. (refl, λ s. s)) h)
  | inr e ↦ rw e h
]

pub save_checkpoint-IsCounted :
    (r : ℕ) (claim : ResearchClaim) (checkpoint : Option String) (t : ℕ) (db : Database)
    → All (IsCounted r) db.jobs
    → All (IsCounted r) (save_checkpoint claim checkpoint t db).1.jobs
unfolding save_checkpoint
save_checkpoint-IsCounted r claim checkpoint t db h =
    update_where-IsCounted r (holds_lease claim t) _ db.jobs (λ j q. (refl, λ s. s)) h

pub complete-IsCounted :
    (r : ℕ) (claim : ResearchClaim) (outcome : ResearchOutcome) (locked_at t : ℕ) (db : Database)
    → All (IsCounted r) db.jobs
    → All (IsCounted r) (complete claim outcome locked_at t db).1.jobs
complete-IsCounted r claim outcome locked_at t db h =
    complete_rule claim outcome locked_at t db (All (IsCounted r)) h
      λ j here held s open_ o cost next.
        unfold finish_job in
        update_where-IsCounted r _ (finish_row s t o cost next) db.jobs
          (λ k q. unfold finish_row in (refl, λ e. absurd (open_ e))) h
