-- ===== src/Research/Queue/Consistent.antt =====
-- packages/source-research/src/index.ts: claiming, renewing, saving and completing keep the tables consistent.
use choice_mind.Prelude.{
  ℕ, String, ◌≡◌, ◌≢◌, refl, Bool, true, not, ◌&&◌, List, Option, some, arith, inl, inr, All,
  Bool-cases, Option-cases, ◌==◌, eq_iff,
}
use choice_mind.Research.Tables.{
  running, completed, JobRow, ResultRow, Database, ResearchClaim, update_where,
}
use choice_mind.Research.Tables.Rows.{In, All-every, first_row-order_by-select}
use choice_mind.Research.Queue.{
  is_lease_duration, is_exhausted, exhaust, is_due, start, retire, next_due, claim_row, claim_next,
  holds_lease, renew_lease, save_checkpoint,
}
use choice_mind.Research.Consistency.{IsSound, IsConsistent}
use choice_mind.Research.Consistency.Updates.{update_where-IsConsistent, by_id}

abbrev Kept : Database → Type 0
Kept db = IsConsistent db.jobs db.results

pub retire-IsConsistent :
    (t : ℕ) (jobs : List JobRow) (results : List ResultRow)
    → IsConsistent jobs results
    → IsConsistent (retire t jobs) results
unfolding retire
retire-IsConsistent t jobs results c =
    update_where-IsConsistent (is_exhausted t) (exhaust t) (λ j. refl) jobs results
      (All-every _ jobs (λ j h. ground arith))
      (All-every _ jobs
        (λ j s h. record { leased = λ e. cc; idle = λ _. (refl, refl); retried = λ e. cc }))
      c

start-IsSound :
    (worker_id : String) (lease_ms t : ℕ) (j : JobRow) → IsSound (start worker_id lease_ms t j)
unfolding start
start-IsSound worker_id lease_ms t j = record {
  leased = λ _. (λ e. cc, λ e. cc, omega arith);
  idle = λ n. absurd (n refl);
  retried = λ e. cc;
}

-- The row to be claimed is a row of the table that is due and not locked.
pub next_due-Found :
    (locked : String → Bool) (t : ℕ) (jobs : List JobRow) (j : JobRow)
    → next_due locked t jobs ≡ some j
    → In j jobs × ((is_due t j && not (locked j.job_id)) ≡ true)
unfolding next_due
next_due-Found locked t jobs j e =
    first_row-order_by-select _ (λ k. is_due t k && not (locked k.job_id)) jobs j e

pub due-open :
    (t : ℕ) (locked : Bool) (j : JobRow) → (is_due t j && not locked) ≡ true → j.state ≢ completed
unfolding is_due
due-open t locked j h = ground arith

pub claim_row_some-IsConsistent :
    (locked : String → Bool) (worker_id : String) (lease_ms t : ℕ) (jobs : List JobRow)
    (results : List ResultRow) (j : JobRow)
    → IsConsistent jobs results
    → next_due locked t jobs ≡ some j
    → IsConsistent
        (update_where (λ k. k.job_id == j.job_id) (start worker_id lease_ms t) jobs)
        results
claim_row_some-IsConsistent locked worker_id lease_ms t jobs results j c e =
    let (here, due) = next_due-Found locked t jobs j e in
    update_where-IsConsistent _ (start worker_id lease_ms t) (λ k. unfold start in refl) jobs
      results
      (by_id (λ k. k.state ≢ completed) jobs j j.job_id c.unique_ids here refl
        (due-open t (locked j.job_id) j due))
      (All-every _ jobs (λ k _ _. start-IsSound worker_id lease_ms t k)) c

claim_row-IsConsistent :
    (locked : String → Bool) (worker_id : String) (lease_ms t : ℕ) (jobs : List JobRow)
    (results : List ResultRow)
    → IsConsistent jobs results
    → IsConsistent (claim_row worker_id lease_ms t jobs (next_due locked t jobs)).1 results
unfolding claim_row
claim_row-IsConsistent locked worker_id lease_ms t jobs results c =
    elim (Option-cases (next_due locked t jobs)) [
      | inl e ↦ rw e c
      | inr (j, e) ↦
          rw e (claim_row_some-IsConsistent locked worker_id lease_ms t jobs results j c e)
    ]

pub claim_next-IsConsistent :
    (locked : String → Bool) (worker_id : String) (lease_ms t : ℕ) (db : Database)
    → Kept db
    → Kept (claim_next locked worker_id lease_ms t db).1
unfolding claim_next
claim_next-IsConsistent locked worker_id lease_ms t db c =
    elim (Bool-cases (is_lease_duration lease_ms)) [
      | inl e ↦ rw e (
          claim_row-IsConsistent locked worker_id lease_ms t (retire t db.jobs) db.results
            (retire-IsConsistent t db.jobs db.results c))
      | inr e ↦ rw e c
    ]

pub held-running :
    (claim : ResearchClaim) (t : ℕ) (j : JobRow) → holds_lease claim t j ≡ true → j.state ≡ running
unfolding holds_lease
held-running claim t j h = ground arith

pub held_id :
    (claim : ResearchClaim) (t : ℕ) (j : JobRow)
    → holds_lease claim t j ≡ true
    → j.job_id ≡ claim.job_id
unfolding holds_lease
held_id claim t j h = ground (arith, eq_iff j.job_id claim.job_id)

-- Of a row under a lease only the lease and the checkpoint change.
module _ (claim : ResearchClaim) (t : ℕ) (jobs : List JobRow) where
  pub held_open : All (λ j. holds_lease claim t j ≡ true → j.state ≢ completed) jobs
  unfolding holds_lease
  held_open = All-every _ jobs (λ j h. ground arith)

pub renew_lease-IsConsistent :
    (claim : ResearchClaim) (lease_ms t : ℕ) (db : Database)
    → Kept db
    → Kept (renew_lease claim lease_ms t db).1
unfolding renew_lease
renew_lease-IsConsistent claim lease_ms t db c = elim (Bool-cases (is_lease_duration lease_ms)) [
  | inl e ↦ rw e (
      update_where-IsConsistent (holds_lease claim t) _ (λ j. refl) db.jobs db.results
        (held_open claim t db.jobs)
        (All-every _ db.jobs (λ j s h. record {
          leased = λ r. ((s.leased r).0, λ q. cc, (s.leased r).2);
          idle = λ n. absurd (n (held-running claim t j h));
          retried = s.retried;
        }))
        c)
  | inr e ↦ rw e c
]

pub save_checkpoint-IsConsistent :
    (claim : ResearchClaim) (checkpoint : Option String) (t : ℕ) (db : Database)
    → Kept db
    → Kept (save_checkpoint claim checkpoint t db).1
unfolding save_checkpoint
save_checkpoint-IsConsistent claim checkpoint t db c =
    update_where-IsConsistent (holds_lease claim t) _ (λ j. refl) db.jobs db.results
      (held_open claim t db.jobs)
      (All-every _ db.jobs
        (λ j s h. record { leased = s.leased; idle = s.idle; retried = s.retried }))
      c
