-- ===== src/Research/Consistency.antt =====
-- packages/source-research/src/index.ts: what holds of the tables between two calls.
pub mod Updates
use choice_mind.Prelude.{String, ℕ, ◌≡◌, ◌≢◌, ◌≤◌, ◌<◌, List, map, Option, none, some, All, Any}
use choice_mind.Research.Tables.{
  JobState, running, completed, failed_retryable, JobRow, ResultRow, Database,
}
use choice_mind.Research.Tables.Rows.{Distinct}

-- A running job has a worker and a lease, any other has neither; a job that is to be tried again was
-- tried one to four times and has a time for it.
pub record IsSound (j : JobRow) : Type 0 where
  pub leased :
      j.state ≡ running → (j.worker_id ≢ none) × (j.lease_expires_at ≢ none) × (1 ≤ j.attempt_count)
  pub idle : j.state ≢ running → (j.worker_id ≡ none) × (j.lease_expires_at ≡ none)
  pub retried :
      j.state ≡ failed_retryable
      → (1 ≤ j.attempt_count) × (j.attempt_count < 5) × (j.next_attempt_at ≢ none)

-- The job of a result is there and completed.
abbrev pub Recorded : List JobRow → ResultRow → Type 0
Recorded jobs r =
    Any (λ j. j.job_id ≡ r.job_id) jobs × All (λ j. j.job_id ≡ r.job_id → j.state ≡ completed) jobs

-- Every job is sound, job ids are unique, every result is of a completed job, and no job has two.
pub record IsConsistent (jobs : List JobRow) (results : List ResultRow) : Type 0 where
  pub sound : All IsSound jobs
  pub unique_ids : Distinct (map (λ j. j.job_id) jobs)
  pub recorded : All (Recorded jobs) results
  pub once : Distinct (map (λ r. r.job_id) results)
