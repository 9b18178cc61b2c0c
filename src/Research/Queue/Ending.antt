-- ===== src/Research/Queue/Ending.antt =====
-- packages/source-research/src/index.ts: what `complete` does to the jobs, in one law.
use choice_mind.Prelude.{
  ℕ, ◌≡◌, ◌≢◌, true, List, Option, inl, inr, Bool-cases, Option-cases, select, leb,
}
use choice_mind.Research.Tables.{
  JobState, queued, ResearchOutcome, evidence, nothing_found, waiting_challenge, retryable_failure,
  final_failure, JobRow, Database, ResearchClaim, first_row,
}
use choice_mind.Research.Tables.Rows.{In, first_row-select}
use choice_mind.Research.Queue.{
  holds_lease, finish_job, finish_as, add_result, commit, complete_locked, complete, is_committed,
}

-- A rule for what holds of the jobs: it holds of them as they were, and of them with the jobs of the
-- claim's id ended, in any state but queued and running, if one of them was under the claim's lease.
module _ (claim : ResearchClaim) (outcome : ResearchOutcome) (locked_at t : ℕ) (db : Database)
    (P : List JobRow → Type 0) (as_before : P db.jobs)
    (ended : (j : JobRow)
      → In j db.jobs
      → holds_lease claim locked_at j ≡ true
      → (s : JobState) → s ≢ queued
      → (o : Option ResearchOutcome) (cost : ℕ) (next : Option ℕ)
      → P (finish_job claim.job_id s t o cost next db.jobs)) where
  finish_as_rule :
      (o : ResearchOutcome) (j : JobRow)
      → In j db.jobs
      → holds_lease claim locked_at j ≡ true
      → P (finish_as claim.job_id o j.attempt_count t db.jobs)
  unfolding finish_as
  finish_as_rule (evidence f) j here held = ended j here held _ (λ e. cc) _ _ _
  finish_as_rule (nothing_found s n) j here held = ended j here held _ (λ e. cc) _ _ _
  finish_as_rule (waiting_challenge k s) j here held = ended j here held _ (λ e. cc) _ _ _
  finish_as_rule (retryable_failure s) j here held = elim (Bool-cases (leb 5 j.attempt_count)) [
    | inl e ↦ rw e (ended j here held _ (λ q. cc) _ _ _)
    | inr e ↦ rw e (ended j here held _ (λ q. cc) _ _ _)
  ]
  finish_as_rule (final_failure s) j here held = ended j here held _ (λ e. cc) _ _ _

  pub complete_rule : P (complete claim outcome locked_at t db).1.jobs
  unfolding complete complete_locked commit
  complete_rule = elim (Bool-cases (is_committed claim outcome db.results)) [
    | inl e ↦ rw e as_before
    | inr e ↦ rw e (elim (Option-cases (first_row (select (holds_lease claim locked_at) db.jobs))) [
      | inl n ↦ rw n as_before
      | inr (j, found) ↦
          let (here, held) = first_row-select (holds_lease claim locked_at) db.jobs j found in
          rw found (elim (Option-cases (add_result claim outcome t db)) [
            | inl n ↦ rw n as_before
            | inr (rs, q) ↦ rw q (finish_as_rule outcome j here held)
          ])
    ])
  ]
