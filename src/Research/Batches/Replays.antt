-- ===== src/Research/Batches/Replays.antt =====
-- packages/source-research/src/index.ts: creating a batch again under the same idempotency key.
use mathlib.Core.Option.{some-injective}
use choice_mind.Prelude.{
  ℕ, String, ◌+◌, ◌≡◌, refl, sym, ap, ◌∙◌, Bool, true, false, List, [], ◌∷◌, ◌++◌, none, some,
  arith, inl, inr, Bool-cases, Option-cases, ◌==◌, eq_iff, eq_refl, any, find, if◌then◌else◌,
}
use choice_mind.Research.Tables.{
  JobRow, BatchRow, Database, returned, thrown, source_research_idempotency_conflict,
}
use choice_mind.Research.Batches.{
  Source, CreateBatchCommand, Platform, new_job, insert_job, insert_jobs, insert_batch, new_batch,
  fingerprint_of, replay, create_new, create_checked, create_batch, is_invalid, normalized_sources,
  existing_batch,
}
use choice_mind.Research.Views.{ResearchBatch, read_batch, require_batch}

insert_job-batches :
    (job : JobRow) (t : ℕ) (db db' : Database)
    → insert_job job t db ≡ some db'
    → db'.batches ≡ db.batches
unfolding insert_job
insert_job-batches job t db db' e = ground arith

insert_jobs-batches :
    (new_id : ℕ → String) (clock : ℕ) (batch : BatchRow) (i : ℕ) (sources : List Source)
    (db db' : Database)
    → insert_jobs new_id clock batch i sources db ≡ some db'
    → db'.batches ≡ db.batches
unfolding insert_jobs
insert_jobs-batches new_id clock batch i [] db db' e =
    ap (λ (d : Database). d.batches) (sym (some-injective db db' e))
insert_jobs-batches new_id clock batch i (s ∷ sources) db db' e =
    let job = new_job batch (new_id i) clock s in
    elim (Option-cases (insert_job job batch.created_at db)) [
      | inl n ↦ absurd (let e' = (rw (n, insert_jobs) at e) in cc)
      | inr (d, q) ↦
          insert_jobs-batches new_id clock batch (i + 1) sources d db' (rw (q, insert_jobs) at e)
          ∙ insert_job-batches job batch.created_at db d q
    ]

insert_batch-batches :
    (platform : Platform) (new_id : ℕ → String) (clock : ℕ) (command : CreateBatchCommand) (t : ℕ)
    (db db' : Database)
    → insert_batch platform new_id clock command t db ≡ some db'
    → db'.batches ≡ db.batches ++ new_batch platform command t ∷ []
unfolding insert_batch
insert_batch-batches platform new_id clock command t db db' e =
    elim (Bool-cases (any (λ b. b.batch_id == command.batch_id) db.batches)) [
      | inl clash ↦ absurd (let e' = (rw (clash, insert_batch) at e) in cc)
      | inr free ↦
          insert_jobs-batches new_id clock (new_batch platform command t) 0
            (normalized_sources platform command.sources)
            (record db { batches = db.batches ++ new_batch platform command t ∷ [] }) db'
            (rw (free, insert_batch) at e)
    ]

find-append :
    {A : Type 0} (p : A → Bool) (xs : List A) (x : A)
    → find p xs ≡ none
    → p x ≡ true
    → find p (xs ++ x ∷ []) ≡ some x
find-append p [] x n h = rw h refl
find-append p (y ∷ ys) x n h = elim (Bool-cases (p y)) [
  | inl e ↦ absurd (let n' = (rw e at n) in cc)
  | inr e ↦ rw e (find-append p ys x (rw e at n) h)
]

-- What a creation that returned leaves behind: a row with its key and its fingerprint, which is read back.
Left : Platform → CreateBatchCommand → ResearchBatch → Database → Type 0
Left platform command b db =
    (row : BatchRow) × (existing_batch command db.batches ≡ some row)
    × (row.request_fingerprint ≡ fingerprint_of platform command)
    × (require_batch (read_batch db row.batch_id command.owner_user_id) ≡ returned b)

create_batch-Left :
    (platform : Platform) (new_id : ℕ → String) (clock : ℕ) (command : CreateBatchCommand) (t : ℕ)
    (db db' : Database) (b : ResearchBatch)
    → create_batch platform new_id clock command t db ≡ (returned b, db')
    → Left platform command b db'
unfolding create_batch create_checked create_new replay Left
create_batch-Left platform new_id clock command t db db' b e =
    elim (Bool-cases (is_invalid platform command)) [
      | inl bad ↦ absurd (ground arith)
      | inr fine ↦ elim (Option-cases (existing_batch command db.batches)) [
        | inr (row, old) ↦
            elim (Bool-cases (row.request_fingerprint == fingerprint_of platform command)) [
              | inr other ↦ absurd (ground arith)
              | inl same ↦
                  let tables : db' ≡ db = ground arith in
                  (
                    row,
                    rw tables old,
                    (eq_iff row.request_fingerprint (fingerprint_of platform command)).0 same,
                    ground arith,
                  )
            ]
        | inl new ↦ elim (Option-cases (insert_batch platform new_id clock command t db)) [
          | inl n ↦ absurd (ground arith)
          | inr (d, q) ↦
              let tables : db' ≡ d = ground arith in
              (
                new_batch platform command t,
                rw tables (
                    rw (insert_batch-batches platform new_id clock command t db d q) (
                      unfold existing_batch new_batch in
                      find-append _ db.batches (new_batch platform command t)
                        (unfold existing_batch in new)
                        (ground (
                          arith,
                          eq_refl command.owner_user_id,
                          eq_refl command.idempotency_key,
                        )))),
                (unfold new_batch in refl),
                (unfold new_batch in ground arith),
              )
        ]
      ]
    ]

-- After a creation that returned a batch, and before anything else changes the tables, a second valid one
-- by the same owner under the same idempotency key changes nothing: it returns the same batch if its
-- request has the same fingerprint, and is a conflict otherwise.
pub create_batch-create_batch :
    (platform : Platform) (new_id new_id' : ℕ → String) (clock clock' : ℕ)
    (command command' : CreateBatchCommand) (t t' : ℕ) (db db' : Database) (b : ResearchBatch)
    → create_batch platform new_id clock command t db ≡ (returned b, db')
    → command'.owner_user_id ≡ command.owner_user_id
    → command'.idempotency_key ≡ command.idempotency_key
    → is_invalid platform command' ≡ false
    → create_batch platform new_id' clock' command' t' db' ≡ (
      if fingerprint_of platform command == fingerprint_of platform command'
          then returned b
          else thrown source_research_idempotency_conflict,
      db',
    )
unfolding create_batch create_checked replay Left
create_batch-create_batch platform new_id new_id' clock clock' command command' t t' db db' b e
      owner key valid =
    let (row, found, prints, read) = create_batch-Left platform new_id clock command t db db' b e in
    let found' : existing_batch command' db'.batches ≡ some row =
      unfold existing_batch in rw (owner, key) (unfold existing_batch in found) in
    rw valid (rw found' (rw (prints, owner, read) refl))
