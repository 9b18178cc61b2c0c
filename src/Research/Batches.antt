-- ===== src/Research/Batches.antt =====
-- packages/source-research/src/index.ts: creating a batch, resuming a source and purging.
-- `String.prototype.trim`, `localeCompare` and the SHA-256 of the request's JSON are a parameter, and so
-- is the id that the database draws for the nth job of a call.
pub mod Consistent
pub mod Replays
pub mod Inserting
use Prim.Native.Char.{nul}
use Prim.Native.String.{◌++◌ as ◌+text◌}
use choice_mind.Prelude.{
  ℕ, String, ◌+◌, Bool, true, false, not, ◌&&◌, ◌||◌, List, [], ◌∷◌, ◌++◌, map, Option, none, some,
  if◌then◌else◌, ◌==◌, ltb, eqb, length, any, all, find, select,
}
use choice_mind.Js.Sorting.{text_lt, code_units}
use choice_mind.Research.Tables.{
  JobState, queued, BatchState, running, waiting_source_login, completed, failed, ResearchOutcome,
  waiting_challenge, Finding, BatchRow, JobRow, ResultRow, OutboxRow, Database, ResearchError,
  source_research_batch_invalid, source_research_idempotency_conflict,
  source_research_batch_not_found, database_rejected, Outcome, returned, thrown, is_running,
  is_waiting, is_completed, is_no_result, is_failed_final, update_where, count_where, order_by,
  first_row, job_before,
}
use choice_mind.Research.Views.{ResearchBatch, read_batch, require_batch}

pub record Source : Type 0 where
  pub source_id : String
  pub source_account_id : String

pub record CreateBatchCommand : Type 0 where
  pub batch_id : String
  pub owner_user_id : String
  pub decision_task_id : String
  pub idempotency_key : String
  pub query : String
  pub sources : List Source

pub record ResumeSourceCommand : Type 0 where
  pub owner_user_id : String
  pub source_id : String
  pub source_account_id : String

pub record Platform : Type 0 where
  pub trim : String → String
  pub locale_before : String → String → Bool
  pub fingerprint : String → String → List Source → String

-- `text.length > n`
abbrev is_longer : String → ℕ → Bool
is_longer text n = ltb n (length (code_units text))

unfoldable pub is_invalid : Platform → CreateBatchCommand → Bool
unfolding code_units
is_invalid platform command =
    eqb (length command.sources) 0
    || ltb 10 (length command.sources)
    || platform.trim command.query == ""
    || is_longer command.query 4000
    || is_longer command.decision_task_id 200
    || is_longer command.idempotency_key 200
    || any (λ s. is_longer s.source_id 100 || is_longer s.source_account_id 200) command.sources

-- `${sourceId}\0${sourceAccountId}`
unfoldable pub source_text : Source → String
source_text s = s.source_id +text (String.◌∷◌ nul String.[] +text s.source_account_id)

unfoldable pub normalized_sources : Platform → List Source → List Source
unfolding source_text order_by
normalized_sources platform sources =
    order_by (λ left right. platform.locale_before (source_text left) (source_text right)) sources

unfoldable pub fingerprint_of : Platform → CreateBatchCommand → String
unfolding normalized_sources
fingerprint_of platform command =
    platform.fingerprint command.decision_task_id (platform.trim command.query)
      (normalized_sources platform command.sources)

unfoldable pub new_batch : Platform → CreateBatchCommand → ℕ → BatchRow
unfolding fingerprint_of
new_batch platform command timestamp = record {
  batch_id = command.batch_id;
  owner_user_id = command.owner_user_id;
  decision_task_id = command.decision_task_id;
  idempotency_key = command.idempotency_key;
  request_fingerprint = fingerprint_of platform command;
  query = platform.trim command.query;
  created_at = timestamp;
  updated_at = timestamp;
}

-- `next_attempt_at` has the default of its column, the database's clock.
unfoldable pub new_job : BatchRow → String → ℕ → Source → JobRow
new_job batch job_id clock s = record {
  job_id = job_id;
  batch_id = batch.batch_id;
  owner_user_id = batch.owner_user_id;
  decision_task_id = batch.decision_task_id;
  query = batch.query;
  source_id = s.source_id;
  source_account_id = s.source_account_id;
  state = JobState.queued;
  checkpoint = none;
  outcome = none;
  worker_id = none;
  lease_expires_at = none;
  attempt_count = 0;
  next_attempt_at = some clock;
  cost_units = 0;
  created_at = batch.created_at;
  updated_at = batch.created_at;
}

-- A key of the table of jobs that the new row would break.
unfoldable pub clashes : JobRow → JobRow → Bool
clashes new old =
    old.job_id == new.job_id
    || (old.batch_id == new.batch_id
        && old.source_id == new.source_id
        && old.source_account_id == new.source_account_id)

unfoldable pub insert_job : JobRow → ℕ → Database → Option Database
unfolding clashes
insert_job job timestamp db =
    if any (clashes job) db.jobs
    then none
    else some (record db {
      jobs = db.jobs ++ job ∷ [];
      outbox =
          db.outbox
          ++ record {
            outbox_id = db.next_outbox_id;
            job_id = job.job_id;
            event_type = "SOURCE_RESEARCH_QUEUED";
            created_at = timestamp;
            published_at = none;
          }
            ∷ [];
      next_outbox_id = db.next_outbox_id + 1;
    })

-- The loop over the normalized sources; `i` counts the rounds, `new_id` draws their ids.
unfoldable pub insert_jobs :
    (ℕ → String) → ℕ → BatchRow → ℕ → List Source → Database → Option Database
unfolding insert_job new_job
insert_jobs new_id clock batch i [] db = some db
insert_jobs new_id clock batch i (s ∷ sources) db =
    elim (insert_job (new_job batch (new_id i) clock s) batch.created_at db) [
      | none ↦ none
      | some db' ↦ insert_jobs new_id clock batch (i + 1) sources db'
    ]

-- The row that holds the idempotency key already.
unfoldable pub existing_batch : CreateBatchCommand → List BatchRow → Option BatchRow
existing_batch command batches =
    find
      (λ b.
        b.owner_user_id == command.owner_user_id && b.idempotency_key == command.idempotency_key)
      batches

unfoldable pub replay : Platform → CreateBatchCommand → Database → BatchRow → Outcome ResearchBatch
unfolding require_batch read_batch fingerprint_of
replay platform command db batch =
    if batch.request_fingerprint == fingerprint_of platform command
    then require_batch (read_batch db batch.batch_id command.owner_user_id)
    else thrown source_research_idempotency_conflict

-- The inserts, with the batch's own key checked; the batch is read back after the commit.
unfoldable pub insert_batch :
    Platform → (ℕ → String) → ℕ → CreateBatchCommand → ℕ → Database → Option Database
unfolding new_batch insert_jobs normalized_sources
insert_batch platform new_id clock command timestamp db =
    let batch = new_batch platform command timestamp in
    if any (λ b. b.batch_id == command.batch_id) db.batches
    then none
    else insert_jobs new_id clock batch 0 (normalized_sources platform command.sources)
        (record db { batches = db.batches ++ batch ∷ [] })

unfoldable pub create_new :
    CreateBatchCommand → Database → Option Database → Outcome ResearchBatch × Database
unfolding require_batch read_batch
create_new command db none = (thrown database_rejected, db)
create_new command db (some db') =
    (require_batch (read_batch db' command.batch_id command.owner_user_id), db')

unfoldable pub create_checked :
    Platform
    → (ℕ → String)
    → ℕ
    → CreateBatchCommand
    → ℕ
    → Database
    → Option BatchRow
    → Outcome ResearchBatch × Database
unfolding replay create_new insert_batch
create_checked platform new_id clock command timestamp db (some batch) =
    (replay platform command db batch, db)
create_checked platform new_id clock command timestamp db none =
    create_new command db (insert_batch platform new_id clock command timestamp db)

unfoldable pub create_batch :
    Platform
    → (ℕ → String)
    → ℕ
    → CreateBatchCommand
    → ℕ
    → Database
    → Outcome ResearchBatch × Database
unfolding is_invalid create_checked existing_batch
create_batch platform new_id clock command timestamp db =
    if is_invalid platform command
    then (thrown source_research_batch_invalid, db)
    else create_checked platform new_id clock command timestamp db
        (existing_batch command db.batches)

unfoldable pub waits_for : ResumeSourceCommand → JobRow → Bool
waits_for command j =
    j.owner_user_id == command.owner_user_id
    && j.source_id == command.source_id
    && j.source_account_id == command.source_account_id
    && is_waiting j.state

unfoldable pub requeue : ℕ → JobRow → JobRow
requeue timestamp j = record j {
  state = JobState.queued;
  worker_id = none;
  lease_expires_at = none;
  updated_at = timestamp;
}

-- The number of the jobs that were resumed, and the tables.
unfoldable pub resume_source : ResumeSourceCommand → ℕ → Database → ℕ × Database
unfolding waits_for requeue
resume_source command timestamp db = (
  count_where (waits_for command) db.jobs,
  record db { jobs = update_where (waits_for command) (requeue timestamp) db.jobs },
)

-- `ON DELETE CASCADE` takes the jobs of a batch, and the results and messages of a job, with it.
unfoldable pub is_purged : String → List BatchRow → String → Bool
is_purged owner_user_id batches batch_id =
    any (λ b. b.owner_user_id == owner_user_id && b.batch_id == batch_id) batches

unfoldable pub loses_job : String → Database → String → Bool
unfolding is_purged
loses_job owner_user_id db job_id =
    any (λ j. j.job_id == job_id && is_purged owner_user_id db.batches j.batch_id) db.jobs

unfoldable pub purge_private_data_for_owner : String → Database → ℕ × Database
unfolding loses_job
purge_private_data_for_owner owner_user_id db = (
  count_where (λ b. b.owner_user_id == owner_user_id) db.batches,
  record db {
    batches = select (λ b. not (b.owner_user_id == owner_user_id)) db.batches;
    jobs = select (λ j. not (is_purged owner_user_id db.batches j.batch_id)) db.jobs;
    results =
        select
          (λ r.
            not (
              is_purged owner_user_id db.batches r.batch_id || loses_job owner_user_id db r.job_id))
          db.results;
    outbox = select (λ m. not (loses_job owner_user_id db m.job_id)) db.outbox;
  },
)
