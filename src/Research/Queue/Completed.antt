-- ===== src/Research/Queue/Completed.antt =====
-- packages/source-research/src/index.ts: completing a job keeps the tables consistent.
use choice_mind.Prelude.{
  ℕ, ◌≡◌, ◌≢◌, ◌≤◌, ◌<◌, refl, sym, ◌∙◌, ap, true, List, [], ◌∷◌, ◌++◌, Option, none, some, arith,
  inl, inr, All, All-map, Any-map, Bool-cases, Option-cases, ◌==◌, eq_iff, select, leb, All-append,
}
use choice_mind.Research.Tables.{
  JobState, running, completed, failed_retryable, ResearchOutcome, evidence, nothing_found,
  waiting_challenge, retryable_failure, final_failure, Finding, JobRow, ResultRow, Database,
  ResearchClaim, first_row,
}
use choice_mind.Research.Tables.Rows.{
  In, All-every, All-at, All-update_where, first_row-select, Distinct-append,
}
use choice_mind.Research.Queue.{
  holds_lease, finish_row, finish_job, insert_result, result_of, finish_as, add_result, commit,
  complete_locked, complete, is_committed,
}
use choice_mind.Research.Consistency.{IsSound, IsConsistent}
use choice_mind.Research.Queue.Consistent.{held-running, held_id}
use choice_mind.Research.Consistency.Updates.{update_where-IsConsistent, by_id, Any-update_where}

insert_result-eq :
    (claim : ResearchClaim) (f : Finding) (timestamp : ℕ) (db : Database) (rs : List ResultRow)
    → insert_result claim f timestamp db ≡ some rs
    → rs ≡ db.results ++ result_of claim f timestamp ∷ []
unfolding insert_result
insert_result-eq claim f timestamp db rs h = ground arith

-- A job that its worker ends: the row that the lease was found on, as `complete` finds it.
module _ (claim : ResearchClaim) (t : ℕ) (jobs : List JobRow) (results : List ResultRow)
    (j : JobRow) (c : IsConsistent jobs results) (here : In j jobs)
    (held : holds_lease claim t j ≡ true) where
  held_only : (P : JobRow → Type 0) → P j → All (λ k. (k.job_id == claim.job_id) ≡ true → P k) jobs
  held_only P h = by_id P jobs j claim.job_id c.unique_ids here (held_id claim t j held) h

  attempted : 1 ≤ j.attempt_count
  attempted = ((All-at IsSound jobs j c.sound here).leased (held-running claim t j held)).2

  not_recorded : All (λ r. r.job_id ≢ claim.job_id) results
  not_recorded =
      All-map
        (λ r h e.
          let e' : j.state ≡ completed =
            All-at (λ k. k.job_id ≡ r.job_id → k.state ≡ completed) jobs j h.1 here
              (held_id claim t j held ∙ sym e) in
          absurd (held-not_completed e'))
        results c.recorded
    where
      held-not_completed : j.state ≢ completed
      held-not_completed e = cc (held-running claim t j held)

  finish_job-IsConsistent :
      (state : JobState) (timestamp : ℕ) (outcome : Option ResearchOutcome) (cost : ℕ)
      (next : Option ℕ)
      → state ≢ running
      → (state ≡ failed_retryable → (j.attempt_count < 5) × (next ≢ none))
      → IsConsistent (finish_job claim.job_id state timestamp outcome cost next jobs) results
  unfolding finish_job
  finish_job-IsConsistent state timestamp outcome cost next stops retries =
      update_where-IsConsistent _ _ (λ k. unfold finish_row in refl) jobs results
        (held_only (λ k. k.state ≢ completed) (λ e. cc (held-running claim t j held)))
        (All-map
          (λ k h s q.
            unfold finish_row in
            record {
              leased = λ e. absurd (stops e);
              idle = λ _. (refl, refl);
              retried = λ e. ((h q).0, ((h q).1 e).0, ((h q).1 e).1);
            })
          jobs
          (held_only
            (λ k.
              (1 ≤ k.attempt_count)
              × (state ≡ failed_retryable → (k.attempt_count < 5) × (next ≢ none)))
            (attempted, retries)))
        c

  finish_as-IsConsistent :
      (outcome : ResearchOutcome) (timestamp : ℕ)
      → IsConsistent (finish_as claim.job_id outcome j.attempt_count timestamp jobs) results
  unfolding finish_as
  finish_as-IsConsistent (evidence f) timestamp =
      finish_job-IsConsistent _ timestamp _ _ _ (λ e. cc) (λ e. cc)
  finish_as-IsConsistent (nothing_found s n) timestamp =
      finish_job-IsConsistent _ timestamp _ _ _ (λ e. cc) (λ e. cc)
  finish_as-IsConsistent (waiting_challenge k s) timestamp =
      finish_job-IsConsistent _ timestamp _ _ _ (λ e. cc) (λ e. cc)
  finish_as-IsConsistent (retryable_failure s) timestamp =
      elim (Bool-cases (leb 5 j.attempt_count)) [
        | inl e ↦ rw e (finish_job-IsConsistent _ timestamp _ _ _ (λ e. cc) (λ e. cc))
        | inr e ↦
            rw e
              (finish_job-IsConsistent _ timestamp _ _ _ (λ e. cc) (λ _. (ground arith, λ e. cc)))
      ]
  finish_as-IsConsistent (final_failure s) timestamp =
      finish_job-IsConsistent _ timestamp _ _ _ (λ e. cc) (λ e. cc)

  -- The result that evidence adds is the first of its job, which is completed with it.
  add-IsConsistent :
      (f : Finding) (timestamp : ℕ)
      → IsConsistent
          (finish_as claim.job_id (evidence f) j.attempt_count timestamp jobs)
          (results ++ result_of claim f timestamp ∷ [])
  unfolding finish_as finish_job
  add-IsConsistent f timestamp =
      let kept = finish_as-IsConsistent (evidence f) timestamp in
      record {
        sound = kept.sound;
        unique_ids = kept.unique_ids;
        recorded = (All-append _ results (result_of claim f timestamp ∷ [])).1 (
          kept.recorded,
          (
            (
              Any-update_where _ _ (λ k. unfold finish_row in refl) claim.job_id jobs
                  (Any-map (λ k e. ap (λ r. r.job_id) e ∙ held_id claim t j held) jobs here),
              All-update_where (λ _. Unit {0}) (λ x. x.job_id ≡ claim.job_id → x.state ≡ completed)
                  (λ x. x.job_id == claim.job_id)
                  (finish_row completed timestamp none f.cost_units none) jobs
                  (All-every _ jobs (λ k _ e q. unfold finish_row in refl))
                  (All-every _ jobs
                    (λ k _ e q. absurd (ground (arith, eq_iff k.job_id claim.job_id))))
                  (All-every _ jobs (λ k. tt)),
            ),
            tt,
          ),
        );
        once =
            Distinct-append (λ r. r.job_id) results (result_of claim f timestamp) c.once
              not_recorded;
      }

commit-IsConsistent :
    (claim : ResearchClaim) (outcome : ResearchOutcome) (t timestamp : ℕ) (db : Database)
    (j : JobRow)
    → IsConsistent db.jobs db.results
    → In j db.jobs
    → holds_lease claim t j ≡ true
    → let db' = (commit claim outcome timestamp db j (add_result claim outcome timestamp db)).1 in
      IsConsistent db'.jobs db'.results
unfolding commit add_result
commit-IsConsistent claim (evidence f) t timestamp db j c here held =
    elim (Option-cases (insert_result claim f timestamp db)) [
      | inl e ↦ rw e c
      | inr (rs, e) ↦
          rw (e, insert_result-eq claim f timestamp db rs e)
            (add-IsConsistent claim t db.jobs db.results j c here held f timestamp)
    ]
commit-IsConsistent claim (nothing_found s n) t timestamp db j c here held =
    finish_as-IsConsistent claim t db.jobs db.results j c here held (nothing_found s n) timestamp
commit-IsConsistent claim (waiting_challenge k s) t timestamp db j c here held =
    finish_as-IsConsistent claim t db.jobs db.results j c here held (waiting_challenge k s)
      timestamp
commit-IsConsistent claim (retryable_failure s) t timestamp db j c here held =
    finish_as-IsConsistent claim t db.jobs db.results j c here held (retryable_failure s) timestamp
commit-IsConsistent claim (final_failure s) t timestamp db j c here held =
    finish_as-IsConsistent claim t db.jobs db.results j c here held (final_failure s) timestamp

pub complete-IsConsistent :
    (claim : ResearchClaim) (outcome : ResearchOutcome) (locked_at timestamp : ℕ) (db : Database)
    → IsConsistent db.jobs db.results
    → IsConsistent
        (complete claim outcome locked_at timestamp db).1.jobs
        (complete claim outcome locked_at timestamp db).1.results
unfolding complete complete_locked
complete-IsConsistent claim outcome locked_at timestamp db c =
    elim (Bool-cases (is_committed claim outcome db.results)) [
      | inl e ↦ rw e c
      | inr e ↦
          rw e (elim (Option-cases (first_row (select (holds_lease claim locked_at) db.jobs))) [
            | inl n ↦ rw n c
            | inr (j, found) ↦
                let (here, held) = first_row-select (holds_lease claim locked_at) db.jobs j found in
                rw found (commit-IsConsistent claim outcome locked_at timestamp db j c here held)
          ])
    ]
