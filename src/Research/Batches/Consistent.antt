-- ===== src/Research/Batches/Consistent.antt =====
-- packages/source-research/src/index.ts: creating, resuming and purging keep the tables consistent.
use mathlib.Core.Option.{some-injective}
use choice_mind.Prelude.{
  ℕ, String, ◌+◌, ◌≡◌, ◌≢◌, refl, sym, subst, ◌∙◌, Bool, false, not, ◌&&◌, List, [], ◌∷◌, ◌++◌,
  some, arith, inl, inr, All, Any, All-map, Bool-cases, Option-cases, ◌==◌, eq_iff, select, any,
  All-append, Any-append,
}
use choice_mind.Research.Tables.{JobRow, ResultRow, BatchRow, Database}
use choice_mind.Research.Tables.Rows.{
  All-every, All-select, Distinct-select, Distinct-append, any-false,
}
use choice_mind.Research.Batches.{
  Source, CreateBatchCommand, ResumeSourceCommand, Platform, new_job, insert_job, insert_jobs,
  insert_batch, new_batch, create_new, create_checked, create_batch, clashes, is_invalid,
  normalized_sources, existing_batch, waits_for, requeue, resume_source, is_purged, loses_job,
  purge_private_data_for_owner,
}
use choice_mind.Research.Consistency.{IsSound, Recorded, IsConsistent}
use choice_mind.Research.Consistency.Updates.{update_where-IsConsistent}

new_job-IsSound :
    (batch : BatchRow) (job_id : String) (clock : ℕ) (s : Source)
    → IsSound (new_job batch job_id clock s)
unfolding new_job
new_job-IsSound batch job_id clock s = record {
  leased = λ e. cc;
  idle = λ _. (refl, refl);
  retried = λ e. cc;
}

-- A row of another job does not touch the results.
append-Recorded :
    (jobs : List JobRow) (new : JobRow) (r : ResultRow)
    → All (λ j. j.job_id ≢ new.job_id) jobs
    → Recorded jobs r
    → Recorded (jobs ++ new ∷ []) r
append-Recorded jobs new r fresh (here, done) = (
  (Any-append _ jobs (new ∷ [])).1 (inl here),
  (All-append _ jobs (new ∷ [])).1 (done, (λ e. absurd (other jobs fresh here e), tt)),
)
  where
    other :
        (js : List JobRow)
        → All (λ j. j.job_id ≢ new.job_id) js
        → Any (λ j. j.job_id ≡ r.job_id) js
        → new.job_id ≢ r.job_id
    other [] f h e = h
    other (j ∷ js) (f, fs) (inl h) e = f (h ∙ sym e)
    other (j ∷ js) (f, fs) (inr h) e = other js fs h e

pub insert_job-eq-some :
    (job : JobRow) (t : ℕ) (db db' : Database)
    → insert_job job t db ≡ some db'
    → (any (clashes job) db.jobs ≡ false)
      × (db'.jobs ≡ db.jobs ++ job ∷ [])
      × (db'.results ≡ db.results)
unfolding insert_job
insert_job-eq-some job t db db' e = ground arith

insert_job-IsConsistent :
    (job : JobRow) (t : ℕ) (db db' : Database)
    → IsSound job
    → insert_job job t db ≡ some db'
    → IsConsistent db.jobs db.results
    → IsConsistent db'.jobs db'.results
insert_job-IsConsistent job t db db' sound e c =
    let (free, jobs, results) = insert_job-eq-some job t db db' e in
    let fresh : All (λ j. j.job_id ≢ job.job_id) db.jobs =
      All-map (λ j q same. unfold clashes in ground (arith, eq_iff j.job_id job.job_id)) db.jobs
        (any-false (clashes job) db.jobs free) in
    rw (jobs, results)
      record {
        sound = (All-append IsSound db.jobs (job ∷ [])).1 (c.sound, (sound, tt));
        unique_ids = Distinct-append (λ j. j.job_id) db.jobs job c.unique_ids fresh;
        recorded = All-map (λ r h. append-Recorded db.jobs job r fresh h) db.results c.recorded;
        once = c.once;
      }

insert_jobs-IsConsistent :
    (new_id : ℕ → String) (clock : ℕ) (batch : BatchRow) (i : ℕ) (sources : List Source)
    (db db' : Database)
    → insert_jobs new_id clock batch i sources db ≡ some db'
    → IsConsistent db.jobs db.results
    → IsConsistent db'.jobs db'.results
unfolding insert_jobs
insert_jobs-IsConsistent new_id clock batch i [] db db' e c =
    subst (λ (d : Database). IsConsistent d.jobs d.results) (some-injective db db' e) c
insert_jobs-IsConsistent new_id clock batch i (s ∷ sources) db db' e c =
    let job = new_job batch (new_id i) clock s in
    elim (Option-cases (insert_job job batch.created_at db)) [
      | inl n ↦ absurd (let e' = (rw (n, insert_jobs) at e) in cc)
      | inr (d, h) ↦
          insert_jobs-IsConsistent new_id clock batch (i + 1) sources d db'
            (rw (h, insert_jobs) at e)
            (insert_job-IsConsistent job batch.created_at db d
              (new_job-IsSound batch (new_id i) clock s) h c)
    ]

insert_batch-IsConsistent :
    (platform : Platform) (new_id : ℕ → String) (clock : ℕ) (command : CreateBatchCommand) (t : ℕ)
    (db db' : Database)
    → insert_batch platform new_id clock command t db ≡ some db'
    → IsConsistent db.jobs db.results
    → IsConsistent db'.jobs db'.results
unfolding insert_batch
insert_batch-IsConsistent platform new_id clock command t db db' e c =
    let batch = new_batch platform command t in
    elim (Bool-cases (any (λ b. b.batch_id == command.batch_id) db.batches)) [
      | inl clash ↦ absurd (let e' = (rw clash at e) in cc)
      | inr free ↦
          insert_jobs-IsConsistent new_id clock batch 0
            (normalized_sources platform command.sources)
            (record db { batches = db.batches ++ batch ∷ [] }) db' (rw free at e) c
    ]

pub create_batch-IsConsistent :
    (platform : Platform) (new_id : ℕ → String) (clock : ℕ) (command : CreateBatchCommand) (t : ℕ)
    (db : Database)
    → IsConsistent db.jobs db.results
    → let db' = (create_batch platform new_id clock command t db).1 in
      IsConsistent db'.jobs db'.results
unfolding create_batch create_checked create_new
create_batch-IsConsistent platform new_id clock command t db c =
    elim (Bool-cases (is_invalid platform command)) [
      | inl bad ↦ rw bad c
      | inr fine ↦ rw fine (elim (Option-cases (existing_batch command db.batches)) [
        | inr (b, old) ↦ rw old c
        | inl new ↦ rw new (elim (Option-cases (insert_batch platform new_id clock command t db)) [
          | inl e ↦ rw e c
          | inr (db', e) ↦
              rw e (insert_batch-IsConsistent platform new_id clock command t db db' e c)
        ])
      ])
    ]

pub resume_source-IsConsistent :
    (command : ResumeSourceCommand) (t : ℕ) (db : Database)
    → IsConsistent db.jobs db.results
    → let db' = (resume_source command t db).1 in IsConsistent db'.jobs db'.results
unfolding resume_source
resume_source-IsConsistent command t db c =
    update_where-IsConsistent (waits_for command) (requeue t) (λ j. refl) db.jobs db.results
      (All-every _ db.jobs (λ j h. unfold waits_for in ground arith))
      (All-every _ db.jobs
        (λ j s h. record { leased = λ e. cc; idle = λ _. (refl, refl); retried = λ e. cc }))
      c

-- A row that the purge leaves is consistent with the rows that it leaves.
module _ (owner_user_id : String) (db : Database) where
  abbrev stays : JobRow → Bool
  stays j = not (is_purged owner_user_id db.batches j.batch_id)

  Any-stays :
      (id : String) (jobs : List JobRow)
      → any (λ j. j.job_id == id && is_purged owner_user_id db.batches j.batch_id) jobs ≡ false
      → Any (λ j. j.job_id ≡ id) jobs
      → Any (λ j. j.job_id ≡ id) (select stays jobs)
  Any-stays id [] none_goes h = h
  Any-stays id (j ∷ jobs) none_goes (inl e) =
      let kept : is_purged owner_user_id db.batches j.batch_id ≡ false =
        ground (arith, eq_iff j.job_id id) in
      rw kept (inl e)
  Any-stays id (j ∷ jobs) none_goes (inr h) =
      let rest = Any-stays id jobs (ground arith) h in
      elim (Bool-cases (is_purged owner_user_id db.batches j.batch_id)) [
        | inl q ↦ rw q rest
        | inr q ↦ rw q (inr rest)
      ]

  pub purge-IsConsistent :
      IsConsistent db.jobs db.results
      → let db' = (purge_private_data_for_owner owner_user_id db).1 in
        IsConsistent db'.jobs db'.results
  unfolding purge_private_data_for_owner
  purge-IsConsistent c = record {
    sound = All-map (λ j h. h.0) _ (All-select IsSound stays db.jobs c.sound);
    unique_ids = Distinct-select (λ j. j.job_id) stays db.jobs c.unique_ids;
    recorded =
        All-map
          (λ r h. (
            Any-stays r.job_id db.jobs (unfold loses_job in ground arith) h.0.0,
            All-map (λ j q. q.0) _ (All-select _ stays db.jobs h.0.1),
          ))
          _ (All-select (Recorded db.jobs) _ db.results c.recorded);
    once = Distinct-select (λ r. r.job_id) _ db.results c.once;
  }
