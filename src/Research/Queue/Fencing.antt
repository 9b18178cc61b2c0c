-- ===== src/Research/Queue/Fencing.antt =====
-- packages/source-research/src/index.ts: what a claim is worth after a later one, and while it lasts.
use choice_mind.Prelude.{
  ℕ, String, ◌≡◌, ◌≢◌, refl, sym, ap, ◌∙◌, Bool, true, false, ◌&&◌, List, Option, some, arith, inl,
  inr, All, All-map, Bool-cases, Option-cases, ◌==◌, eq_iff, any,
}
use choice_mind.Research.Tables.{
  completed, ResearchOutcome, evidence, nothing_found, waiting_challenge, retryable_failure,
  final_failure, Finding, JobRow, ResultRow, Database, returned, ResearchClaim, update_where,
}
use choice_mind.Research.Tables.Rows.{
  In, All-every, All-at, All-update_where, any-none, select-none, count_where-none,
  update_where-none,
}
use choice_mind.Research.Queue.{
  claimed, RenewStatus, SaveStatus, CompleteStatus, is_lease_duration, start, claim_of, retire,
  next_due, claim_row, claim_next, holds_lease, renew_lease, save_checkpoint, complete_locked,
  complete, is_committed,
}
use choice_mind.Research.Queue.Consistent.{next_due-Found, retire-IsConsistent, due-open}
use choice_mind.Research.Consistency.{IsConsistent}

-- A claim that was handed out is of a row that was due, and that row is the worker's now.
pub claim_next-claimed :
    (locked : String → Bool) (worker_id : String) (ms t : ℕ) (db db' : Database) (c : ResearchClaim)
    → claim_next locked worker_id ms t db ≡ (returned (claimed c), db')
    → (j : JobRow) × (next_due locked t (retire t db.jobs) ≡ some j)
      × (c ≡ claim_of worker_id j)
      × (db' ≡ record db {
        jobs = update_where (λ k. k.job_id == j.job_id) (start worker_id ms t) (retire t db.jobs);
      })
unfolding claim_next claim_row
claim_next-claimed locked worker_id ms t db db' c e = elim (Bool-cases (is_lease_duration ms)) [
  | inr bad ↦ absurd (ground arith)
  | inl ok ↦ elim (Option-cases (next_due locked t (retire t db.jobs))) [
    | inl n ↦ absurd (ground arith)
    | inr (j, found) ↦ (j, found, ground arith, ground arith)
  ]
]

-- The jobs after a claim of one of them.
module _ (worker_id : String) (ms t : ℕ) (jobs : List JobRow) (results : List ResultRow)
    (j : JobRow) (c : IsConsistent jobs results) (here : In j jobs)
    (open_ : j.state ≢ completed) where
  abbrev pub jobs_after : List JobRow
  jobs_after = update_where (λ k. k.job_id == j.job_id) (start worker_id ms t) jobs

  -- The claimed job has no result yet.
  pub no_results :
      (f : Finding)
      → any (λ r. r.job_id == j.job_id && r.finding.result_key == f.result_key) results ≡ false
  no_results f = any-none _ results (
      All-map
        (λ r h.
          let n : r.job_id ≢ j.job_id = λ e.
            open_
              (All-at (λ k. k.job_id ≡ r.job_id → k.state ≡ completed) jobs j h.1 here (sym e)) in
          ground (arith, eq_iff r.job_id j.job_id))
        results c.recorded)

  -- Nobody else holds a lease on it.
  none_held :
      (old : ResearchClaim) (at : ℕ)
      → old.job_id ≡ j.job_id
      → old.worker_id ≢ worker_id
      → All (λ k. holds_lease old at k ≡ false) jobs_after
  none_held old at same other =
      All-update_where (λ _. Unit {0}) (λ k. holds_lease old at k ≡ false)
        (λ k. k.job_id == j.job_id) (start worker_id ms t) jobs
        (All-every _ jobs
          (λ k _ e. unfold holds_lease start in ground (arith, eq_iff worker_id old.worker_id)))
        (All-every _ jobs (λ k _ e.
          unfold holds_lease in
          ground (arith, eq_iff k.job_id old.job_id, eq_iff k.job_id j.job_id)))
        (All-every _ jobs (λ k. tt))

-- Without a lease a claim changes nothing.
lost :
    (old : ResearchClaim) (outcome : ResearchOutcome) (checkpoint : Option String) (at ms t : ℕ)
    (db : Database)
    → is_lease_duration ms ≡ true
    → All (λ k. holds_lease old at k ≡ false) db.jobs
    → ((f : Finding)
        → any (λ r. r.job_id == old.job_id && r.finding.result_key == f.result_key) db.results
          ≡ false)
    → (complete old outcome at t db ≡ (returned CompleteStatus.lease_lost, db))
      × (save_checkpoint old checkpoint at db ≡ (SaveStatus.lease_lost, db))
      × (renew_lease old ms at db ≡ (returned RenewStatus.lease_lost, db))
unfolding complete complete_locked save_checkpoint renew_lease
lost old outcome checkpoint at ms t db valid unheld fresh = (
  rw (not_committed outcome) (rw (select-none _ db.jobs unheld) refl),
  rw (count_where-none _ db.jobs unheld) (rw (update_where-none _ _ db.jobs unheld) refl),
  rw valid
      (rw (count_where-none _ db.jobs unheld) (rw (update_where-none _ _ db.jobs unheld) refl)),
)
  where
    not_committed : (o : ResearchOutcome) → is_committed old o db.results ≡ false
    not_committed (evidence f) = unfold is_committed in fresh f
    not_committed (nothing_found s n) = unfold is_committed in refl
    not_committed (waiting_challenge k s) = unfold is_committed in refl
    not_committed (retryable_failure s) = unfold is_committed in refl
    not_committed (final_failure s) = unfold is_committed in refl

-- In consistent tables, once `claimNext` has handed a job to a worker, a claim of the same job under
-- another worker's id is worth nothing: completing, saving a checkpoint and renewing (for a valid
-- duration), at any time, answer that the lease is lost and leave all tables as they are.
pub claim_next-fences :
    (locked : String → Bool) (worker_id : String) (ms t : ℕ) (db db' : Database)
    (new old : ResearchClaim) (outcome : ResearchOutcome) (checkpoint : Option String)
    (at ms' t' : ℕ)
    → IsConsistent db.jobs db.results
    → claim_next locked worker_id ms t db ≡ (returned (claimed new), db')
    → old.job_id ≡ new.job_id
    → old.worker_id ≢ worker_id
    → is_lease_duration ms' ≡ true
    → (complete old outcome at t' db' ≡ (returned CompleteStatus.lease_lost, db'))
      × (save_checkpoint old checkpoint at db' ≡ (SaveStatus.lease_lost, db'))
      × (renew_lease old ms' at db' ≡ (returned RenewStatus.lease_lost, db'))
claim_next-fences locked worker_id ms t db db' new old outcome checkpoint at ms' t' c e same other
      valid =
    let (j, found, handed, tables) = claim_next-claimed locked worker_id ms t db db' new e in
    let jobs = retire t db.jobs in
    let kept = retire-IsConsistent t db.jobs db.results c in
    let (here, due) = next_due-Found locked t jobs j found in
    let open_ = due-open t (locked j.job_id) j due in
    let same' : old.job_id ≡ j.job_id =
      same ∙ ap (λ (k : ResearchClaim). k.job_id) handed ∙ claimed_id worker_id j in
    rw tables (
      lost old outcome checkpoint at ms' t'
        (record db { jobs = jobs_after worker_id ms t jobs db.results j kept here open_ }) valid
        (none_held worker_id ms t jobs db.results j kept here open_ old at same' other)
        (λ f. rw same' (no_results worker_id ms t jobs db.results j kept here open_ f)))
  where
    claimed_id : (w : String) (k : JobRow) → (claim_of w k).job_id ≡ k.job_id
    claimed_id w k = unfold claim_of in refl
