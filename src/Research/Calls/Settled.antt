-- ===== src/Research/Calls/Settled.antt =====
-- packages/source-research/src/index.ts: a job that has ended, and a result, stay as they are.
use mathlib.Core.Option.{some-injective}
use choice_mind.Prelude.{
  ℕ, String, ◌≡◌, refl, subst, List, [], ◌∷◌, arith, inl, inr, All, Any-append, Bool, true, false,
  not, ◌&&◌, Bool-cases, some, Option-cases, ◌==◌, select,
}
use choice_mind.Research.Tables.{
  ResearchOutcome, evidence, nothing_found, waiting_challenge, retryable_failure, final_failure,
  JobRow, ResultRow, Database, ResearchClaim, first_row,
}
use choice_mind.Research.Tables.Rows.{In, All-at, In-update_where}
use choice_mind.Research.Consistency.{IsConsistent}
use choice_mind.Research.Consistency.Updates.{by_id}
use choice_mind.Research.Queue.{
  is_lease_duration, is_exhausted, exhaust, is_due, start, retire, next_due, claim_row, claim_next,
  holds_lease, renew_lease, save_checkpoint, finish_job, insert_result, add_result, result_of,
  commit, complete_locked, complete, is_committed,
}
use choice_mind.Research.Queue.Consistent.{
  next_due-Found, retire-IsConsistent, held-running, held_id,
}
use choice_mind.Research.Queue.Ending.{complete_rule}
use choice_mind.Research.Batches.{Platform, new_job, resume_source, waits_for, requeue}
use choice_mind.Research.Views.{is_terminal}
use choice_mind.Research.Batches.Inserting.{create_batch_rule}
use choice_mind.Research.Calls.{
  Call, create, resume, claim, renew, save, finish, purge, apply, run, no_rows,
}
use choice_mind.Research.Calls.Reached.{apply-IsConsistent, run-IsConsistent}

abbrev pub IsPurge : Call → Type 0
IsPurge (purge owner_user_id) = Unit {0}
IsPurge _ = ⊥

-- A row that is not the one of the id, in a table where that id has one row, which has not ended.
other_id :
    (jobs : List JobRow) (results : List ResultRow) (j k : JobRow) (id : String)
    → IsConsistent jobs results
    → In j jobs
    → In k jobs
    → k.job_id ≡ id
    → is_terminal j.state ≡ true
    → is_terminal k.state ≡ false
    → (j.job_id == id) ≡ false
other_id jobs results j k id c here there same over going = elim (Bool-cases (j.job_id == id)) [
  | inr n ↦ n
  | inl e ↦
      let going' : is_terminal j.state ≡ false =
        All-at _ jobs j
          (by_id (λ i. is_terminal i.state ≡ false) jobs k id c.unique_ids there same going) here
          e in
      absurd (cc going')
]

-- One ended job in consistent tables.
module _ (db : Database) (j : JobRow) (c : IsConsistent db.jobs db.results) (here : In j db.jobs)
    (over : is_terminal j.state ≡ true) where
  not-due :
      (t : ℕ) (k : JobRow) (locked : Bool)
      → (is_due t k && not locked) ≡ true
      → is_terminal k.state ≡ false
  unfolding is_due
  not-due t k locked h = ground arith

  claim_row-settled :
      (locked : String → Bool) (worker_id : String) (ms t : ℕ)
      → In j (claim_row worker_id ms t (retire t db.jobs) (next_due locked t (retire t db.jobs))).1
  unfolding claim_row
  claim_row-settled locked worker_id ms t =
      let jobs = retire t db.jobs in
      let kept = retire-IsConsistent t db.jobs db.results c in
      let stays : In j jobs =
        unfold retire in
        In-update_where (is_exhausted t) (exhaust t) db.jobs j (unfold is_exhausted in ground arith)
          here in
      elim (Option-cases (next_due locked t jobs)) [
        | inl e ↦ rw e stays
        | inr (k, e) ↦
            let (there, due) = next_due-Found locked t jobs k e in
            rw e (
              In-update_where (λ x. x.job_id == k.job_id) (start worker_id ms t) jobs j
                (other_id jobs db.results j k k.job_id kept stays there refl over
                  (not-due t k (locked k.job_id) due))
                stays)
      ]

  pub claim_next-settled :
      (locked : String → Bool) (worker_id : String) (ms t : ℕ)
      → In j (claim_next locked worker_id ms t db).1.jobs
  unfolding claim_next
  claim_next-settled locked worker_id ms t = elim (Bool-cases (is_lease_duration ms)) [
    | inl e ↦ rw e (claim_row-settled locked worker_id ms t)
    | inr e ↦ rw e here
  ]

  not_held : (held_by : ResearchClaim) (t : ℕ) → holds_lease held_by t j ≡ false
  not_held held_by t = elim (Bool-cases (holds_lease held_by t j)) [
    | inl e ↦ absurd (let r = held-running held_by t j e in ground arith)
    | inr e ↦ e
  ]

  pub renew_lease-settled :
      (held_by : ResearchClaim) (ms t : ℕ) → In j (renew_lease held_by ms t db).1.jobs
  unfolding renew_lease
  renew_lease-settled held_by ms t = elim (Bool-cases (is_lease_duration ms)) [
    | inl e ↦ rw e (In-update_where (holds_lease held_by t) _ db.jobs j (not_held held_by t) here)
    | inr e ↦ rw e here
  ]

  pub complete-settled :
      (held_by : ResearchClaim) (outcome : ResearchOutcome) (locked_at t : ℕ)
      → In j (complete held_by outcome locked_at t db).1.jobs
  complete-settled held_by outcome locked_at t =
      complete_rule held_by outcome locked_at t db (λ jobs. In j jobs) here
        λ k there held s open_ o cost next.
          unfold finish_job in
          In-update_where (λ x. x.job_id == held_by.job_id) _ db.jobs j
            (other_id db.jobs db.results j k held_by.job_id c here there
              (held_id held_by locked_at k held) over
              (let r = held-running held_by locked_at k held in ground arith))
            here

  apply-settled :
      (platform : Platform) (call : Call) → ¬ IsPurge call → In j (apply platform call db).jobs
  unfolding apply
  apply-settled platform (create new_id clock command t) n =
      create_batch_rule (λ jobs _. In j jobs)
        (λ jobs results batch id clock' s _ i.
          (Any-append _ jobs (new_job batch id clock' s ∷ [])).1 (inl i))
        platform new_id clock command t db here
  apply-settled platform (resume command t) n =
      unfold resume_source in
      In-update_where (waits_for command) (requeue t) db.jobs j (unfold waits_for in ground arith)
        here
  apply-settled platform (claim locked worker_id ms t) n = claim_next-settled locked worker_id ms t
  apply-settled platform (renew c' ms t) n = renew_lease-settled c' ms t
  apply-settled platform (save c' checkpoint t) n =
      unfold save_checkpoint in In-update_where (holds_lease c' t) _ db.jobs j (not_held c' t) here
  apply-settled platform (finish c' outcome locked_at t) n = complete-settled c' outcome locked_at t
  apply-settled platform (purge owner_user_id) n = absurd (n tt)

module _ (r : ResultRow) (db : Database) (here : In r db.results) where
  added-kept :
      (held_by : ResearchClaim) (outcome : ResearchOutcome) (t : ℕ) (rs : List ResultRow)
      → add_result held_by outcome t db ≡ some rs
      → In r rs
  unfolding add_result insert_result
  added-kept held_by (evidence f) t rs e =
      subst (λ l. In r l) (ground arith)
        ((Any-append _ db.results (result_of held_by f t ∷ [])).1 (inl here))
  added-kept held_by (nothing_found s n) t rs e =
      subst (λ l. In r l) (some-injective db.results rs e) here
  added-kept held_by (waiting_challenge k s) t rs e =
      subst (λ l. In r l) (some-injective db.results rs e) here
  added-kept held_by (retryable_failure s) t rs e =
      subst (λ l. In r l) (some-injective db.results rs e) here
  added-kept held_by (final_failure s) t rs e =
      subst (λ l. In r l) (some-injective db.results rs e) here

  complete-kept :
      (held_by : ResearchClaim) (outcome : ResearchOutcome) (locked_at t : ℕ)
      → In r (complete held_by outcome locked_at t db).1.results
  unfolding complete complete_locked commit
  complete-kept held_by outcome locked_at t =
      elim (Bool-cases (is_committed held_by outcome db.results)) [
        | inl e ↦ rw e here
        | inr e ↦
            rw e (elim (Option-cases (first_row (select (holds_lease held_by locked_at) db.jobs))) [
              | inl n ↦ rw n here
              | inr (j, found) ↦ rw found (elim (Option-cases (add_result held_by outcome t db)) [
                | inl n ↦ rw n here
                | inr (rs, q) ↦ rw q (added-kept held_by outcome t rs q)
              ])
            ])
      ]

  claim_kept :
      (locked : String → Bool) (worker_id : String) (ms t : ℕ)
      → In r (claim_next locked worker_id ms t db).1.results
  unfolding claim_next
  claim_kept locked worker_id ms t = elim (Bool-cases (is_lease_duration ms)) [
    | inl e ↦ rw e here
    | inr e ↦ rw e here
  ]

  renew_kept : (held_by : ResearchClaim) (ms t : ℕ) → In r (renew_lease held_by ms t db).1.results
  unfolding renew_lease
  renew_kept held_by ms t = elim (Bool-cases (is_lease_duration ms)) [
    | inl e ↦ rw e here
    | inr e ↦ rw e here
  ]

  apply-kept :
      (platform : Platform) (call : Call) → ¬ IsPurge call → In r (apply platform call db).results
  unfolding apply
  apply-kept platform (create new_id clock command t) n =
      create_batch_rule (λ _ results. In r results) (λ jobs results batch id clock' s _ i. i)
        platform new_id clock command t db here
  apply-kept platform (resume command t) n = unfold resume_source in here
  apply-kept platform (claim locked worker_id ms t) n = claim_kept locked worker_id ms t
  apply-kept platform (renew c' ms t) n = renew_kept c' ms t
  apply-kept platform (save c' checkpoint t) n = unfold save_checkpoint in here
  apply-kept platform (finish c' outcome locked_at t) n = complete-kept c' outcome locked_at t
  apply-kept platform (purge owner_user_id) n = absurd (n tt)

run-settled :
    (platform : Platform) (cs : List Call) (db : Database) (j : JobRow)
    → IsConsistent db.jobs db.results
    → In j db.jobs
    → is_terminal j.state ≡ true
    → All (λ c. ¬ IsPurge c) cs
    → In j (run platform cs db).jobs
unfolding run
run-settled platform [] db j c here over n = here
run-settled platform (call ∷ cs) db j c here over (n, ns) =
    run-settled platform cs (apply platform call db) j (apply-IsConsistent platform call db c)
      (apply-settled db j c here over platform call n) over ns

run-kept :
    (platform : Platform) (cs : List Call) (db : Database) (r : ResultRow)
    → In r db.results
    → All (λ c. ¬ IsPurge c) cs
    → In r (run platform cs db).results
unfolding run
run-kept platform [] db r here n = here
run-kept platform (call ∷ cs) db r here (n, ns) =
    run-kept platform cs (apply platform call db) r (apply-kept r db here platform call n) ns

-- After any calls from empty tables on, and any further calls none of which purges an owner: every job
-- that had come to an end (completed, without a result, or failed for good) is there, column for column as
-- it was, and so is every result.
pub run-IsSettled :
    (platform : Platform) (before after : List Call)
    → All (λ c. ¬ IsPurge c) after
    → let db = run platform before no_rows in
      let db' = run platform after db in
      ((j : JobRow) → In j db.jobs → is_terminal j.state ≡ true → In j db'.jobs)
      × ((r : ResultRow) → In r db.results → In r db'.results)
run-IsSettled platform before after n = (
  λ j here over.
      run-settled platform after (run platform before no_rows) j (run-IsConsistent platform before)
        here over n,
  λ r here. run-kept platform after (run platform before no_rows) r here n,
)
