-- ===== src/Research/Batches/Inserting.antt =====
-- packages/source-research/src/index.ts: what creating a batch does to the jobs and the results.
use mathlib.Core.Option.{some-injective}
use choice_mind.Prelude.{
  ℕ, String, ◌+◌, ◌≡◌, refl, false, arith, sym, subst, List, [], ◌∷◌, ◌++◌, some, inl, inr,
  Bool-cases, Option-cases, ◌==◌, any,
}
use choice_mind.Research.Tables.{JobRow, ResultRow, BatchRow, Database}
use choice_mind.Research.Batches.{
  Source, CreateBatchCommand, Platform, clashes, new_job, insert_job, insert_jobs, insert_batch,
  new_batch, create_new, create_checked, create_batch, is_invalid, normalized_sources,
  existing_batch,
}
use choice_mind.Research.Batches.Consistent.{insert_job-eq-some}

clashes-fresh :
    (job : JobRow) (jobs : List JobRow)
    → any (clashes job) jobs ≡ false
    → any (λ j. j.job_id == job.job_id) jobs ≡ false
unfolding clashes
clashes-fresh job [] h = refl
clashes-fresh job (j ∷ jobs) h = ground (arith, clashes-fresh job jobs)

-- A rule for what holds of the jobs and the results: it holds before, and a new job, whose id no job has,
-- keeps it.
module _ (P : List JobRow → List ResultRow → Type 0)
    (one_more : (jobs : List JobRow) (results : List ResultRow) (batch : BatchRow) (id : String)
        (clock : ℕ) (s : Source)
      → any (λ j. j.job_id == id) jobs ≡ false
      → P jobs results
      → P (jobs ++ new_job batch id clock s ∷ []) results) where
  insert_jobs_rule :
      (new_id : ℕ → String) (clock : ℕ) (batch : BatchRow) (i : ℕ) (sources : List Source)
      (db db' : Database)
      → insert_jobs new_id clock batch i sources db ≡ some db'
      → P db.jobs db.results
      → P db'.jobs db'.results
  unfolding insert_jobs
  insert_jobs_rule new_id clock batch i [] db db' e h =
      subst (λ (d : Database). P d.jobs d.results) (some-injective db db' e) h
  insert_jobs_rule new_id clock batch i (s ∷ sources) db db' e h =
      let job = new_job batch (new_id i) clock s in
      elim (Option-cases (insert_job job batch.created_at db)) [
        | inl n ↦ absurd (let e' = (rw (n, insert_jobs) at e) in cc)
        | inr (d, q) ↦
            let (free, jobs, results) = insert_job-eq-some job batch.created_at db d q in
            insert_jobs_rule new_id clock batch (i + 1) sources d db' (rw (q, insert_jobs) at e) (
              subst (λ js. P js d.results) (sym jobs)
                (subst (λ rs. P (db.jobs ++ job ∷ []) rs) (sym results)
                  (one_more db.jobs db.results batch (new_id i) clock s
                    (unfold new_job in clashes-fresh job db.jobs free) h)))
      ]

  pub create_batch_rule :
      (platform : Platform) (new_id : ℕ → String) (clock : ℕ) (command : CreateBatchCommand) (t : ℕ)
      (db : Database)
      → P db.jobs db.results
      → P
          (create_batch platform new_id clock command t db).1.jobs
          (create_batch platform new_id clock command t db).1.results
  unfolding create_batch create_checked create_new
  create_batch_rule platform new_id clock command t db h =
      elim (Bool-cases (is_invalid platform command)) [
        | inl bad ↦ rw bad h
        | inr fine ↦ rw fine (elim (Option-cases (existing_batch command db.batches)) [
          | inr (b, old) ↦ rw old h
          | inl new ↦
              rw new (elim (Option-cases (insert_batch platform new_id clock command t db)) [
                | inl e ↦ rw e h
                | inr (db', e) ↦ rw e (insert_batch_rule db' e)
              ])
        ])
      ]
    where
      insert_batch_rule :
          (db' : Database)
          → insert_batch platform new_id clock command t db ≡ some db'
          → P db'.jobs db'.results
      insert_batch_rule db' e =
          elim (Bool-cases (any (λ b. b.batch_id == command.batch_id) db.batches)) [
            | inl clash ↦ absurd (let e' = (rw (clash, insert_batch) at e) in cc)
            | inr free ↦
                insert_jobs_rule new_id clock (new_batch platform command t) 0
                  (normalized_sources platform command.sources)
                  (record db { batches = db.batches ++ new_batch platform command t ∷ [] }) db'
                  (rw (free, insert_batch) at e) h
          ]
