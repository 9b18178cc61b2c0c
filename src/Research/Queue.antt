-- ===== src/Research/Queue.antt =====
-- packages/source-research/src/index.ts: claiming a job, keeping its lease and ending it.
-- A call is one transaction on the tables, and an error rolls it back. `locked` says of which jobs the
-- transactions of others hold the rows when `claimNext` skips them; each clock reading is an argument.
pub mod Consistent
pub mod Completed
pub mod Ending
pub mod Attempts
pub mod Fencing
pub mod Oldest
pub mod Holding
use choice_mind.Prelude.{
  ℕ, String, ◌+◌, ◌-◌, ◌*◌, Bool, true, false, not, ◌&&◌, ◌||◌, List, [], ◌∷◌, ◌++◌, Option, none,
  some, if◌then◌else◌, ◌==◌, ltb, leb, eqb, same_text?, any, select,
}
use Prim.Native.Nat.{◌^◌}
use choice_mind.Research.Tables.{
  JobState, running, waiting_source_login, completed, no_result, failed_retryable, failed_final,
  Finding, ResearchOutcome, evidence, nothing_found, waiting_challenge, retryable_failure,
  final_failure, JobRow, ResultRow, Database, ResearchError, source_research_lease_invalid,
  database_rejected, Outcome, returned, thrown, ResearchClaim, is_queued, is_running,
  is_failed_retryable, is_past, is_ahead, update_where, count_where, order_by, first_row,
  job_before,
}

pub data ClaimResult : Type 0 where
  empty : ClaimResult
  claimed : ResearchClaim → ClaimResult

pub data RenewStatus : Type 0 where
  renewed lease_lost : RenewStatus

pub data SaveStatus : Type 0 where
  saved lease_lost : SaveStatus

pub data CompleteStatus : Type 0 where
  committed already_committed lease_lost : CompleteStatus

-- `Number.isSafeInteger(leaseDurationMs) && leaseDurationMs > 0`
abbrev pub is_lease_duration : ℕ → Bool
is_lease_duration ms = ltb 0 ms && leb ms 9007199254740991

-- The rows that have used up their five attempts.
unfoldable pub is_exhausted : ℕ → JobRow → Bool
is_exhausted timestamp j =
    is_running j.state && is_past j.lease_expires_at timestamp && leb 5 j.attempt_count

abbrev exhausted_outcome : ResearchOutcome
exhausted_outcome = final_failure "来源研究重试次数已耗尽"

unfoldable pub exhaust : ℕ → JobRow → JobRow
exhaust timestamp j = record j {
  state = failed_final;
  worker_id = none;
  lease_expires_at = none;
  next_attempt_at = none;
  outcome = some exhausted_outcome;
  updated_at = timestamp;
}

-- The rows that may be claimed.
unfoldable pub is_due : ℕ → JobRow → Bool
is_due timestamp j =
    is_queued j.state
    || (is_failed_retryable j.state && is_past j.next_attempt_at timestamp)
    || (is_running j.state && is_past j.lease_expires_at timestamp && ltb j.attempt_count 5)

unfoldable pub start : String → ℕ → ℕ → JobRow → JobRow
start worker_id lease_ms timestamp j = record j {
  state = running;
  worker_id = some worker_id;
  lease_expires_at = some (timestamp + lease_ms);
  attempt_count = j.attempt_count + 1;
  updated_at = timestamp;
}

unfoldable pub claim_of : String → JobRow → ResearchClaim
claim_of worker_id j = record {
  job_id = j.job_id;
  batch_id = j.batch_id;
  owner_user_id = j.owner_user_id;
  decision_task_id = j.decision_task_id;
  query = j.query;
  source_id = j.source_id;
  source_account_id = j.source_account_id;
  checkpoint = j.checkpoint;
  worker_id = worker_id;
  attempt_count = j.attempt_count + 1;
}

-- The two statements before the claim: retire what is used up, then look for the oldest row.
unfoldable pub retire : ℕ → List JobRow → List JobRow
unfolding is_exhausted exhaust
retire timestamp jobs = update_where (is_exhausted timestamp) (exhaust timestamp) jobs

unfoldable pub next_due : (String → Bool) → ℕ → List JobRow → Option JobRow
unfolding is_due order_by job_before
next_due locked timestamp jobs =
    first_row (order_by job_before (select (λ j. is_due timestamp j && not (locked j.job_id)) jobs))

unfoldable pub claim_row : String → ℕ → ℕ → List JobRow → Option JobRow → ClaimResult × List JobRow
unfolding start claim_of
claim_row worker_id lease_ms timestamp jobs none = (empty, jobs)
claim_row worker_id lease_ms timestamp jobs (some j) = (
  claimed (claim_of worker_id j),
  update_where (λ k. k.job_id == j.job_id) (start worker_id lease_ms timestamp) jobs,
)

unfoldable pub claim_next :
    (String → Bool) → String → ℕ → ℕ → Database → Outcome ClaimResult × Database
unfolding retire next_due claim_row
claim_next locked worker_id lease_ms timestamp db =
    let jobs = retire timestamp db.jobs in
    let (result, jobs') =
      claim_row worker_id lease_ms timestamp jobs (next_due locked timestamp jobs) in
    if is_lease_duration lease_ms
    then (returned result, record db { jobs = jobs' })
    else (thrown source_research_lease_invalid, db)

-- `job_id = $1 AND worker_id = $2 AND state = 'RUNNING' AND lease_expires_at > t`
unfoldable pub holds_lease : ResearchClaim → ℕ → JobRow → Bool
holds_lease claim t j =
    j.job_id == claim.job_id
    && same_text? j.worker_id claim.worker_id
    && is_running j.state
    && is_ahead j.lease_expires_at t

unfoldable pub renew_lease : ResearchClaim → ℕ → ℕ → Database → Outcome RenewStatus × Database
unfolding holds_lease
renew_lease claim lease_ms timestamp db =
    if is_lease_duration lease_ms
    then (
      returned (
          if eqb (count_where (holds_lease claim timestamp) db.jobs) 1
          then renewed
          else RenewStatus.lease_lost),
      record db {
        jobs =
            update_where (holds_lease claim timestamp)
              (λ j. record j {
                lease_expires_at = some (timestamp + lease_ms);
                updated_at = timestamp;
              })
              db.jobs;
      },
    )
    else (thrown source_research_lease_invalid, db)

-- `checkpoint` is the JSON text that the column holds.
unfoldable pub save_checkpoint :
    ResearchClaim → Option String → ℕ → Database → SaveStatus × Database
unfolding holds_lease
save_checkpoint claim checkpoint timestamp db = (
  if eqb (count_where (holds_lease claim timestamp) db.jobs) 1
      then saved
      else SaveStatus.lease_lost,
  record db {
    jobs =
        update_where (holds_lease claim timestamp)
          (λ j. record j { checkpoint = checkpoint; updated_at = timestamp }) db.jobs;
  },
)

unfoldable pub finish_row : JobState → ℕ → Option ResearchOutcome → ℕ → Option ℕ → JobRow → JobRow
finish_row state timestamp outcome cost_units next_attempt_at j = record j {
  state = state;
  outcome = outcome;
  cost_units = cost_units;
  worker_id = none;
  lease_expires_at = none;
  next_attempt_at = next_attempt_at;
  updated_at = timestamp;
}

unfoldable pub finish_job :
    String → JobState → ℕ → Option ResearchOutcome → ℕ → Option ℕ → List JobRow → List JobRow
unfolding finish_row
finish_job job_id state timestamp outcome cost_units next_attempt_at jobs =
    update_where (λ j. j.job_id == job_id)
      (finish_row state timestamp outcome cost_units next_attempt_at) jobs

-- `Math.min(300_000, 1_000 * 2 ** (attempts - 1))`; from the first attempt on, `attempts - 1` is exact.
unfoldable pub backoff_ms : ℕ → ℕ
backoff_ms attempts =
    let delay = 1000 * 2 ^ (attempts - 1) in if leb 300000 delay then 300000 else delay

abbrev pub result_of : ResearchClaim → Finding → ℕ → ResultRow
result_of claim f timestamp = record {
  job_id = claim.job_id;
  batch_id = claim.batch_id;
  owner_user_id = claim.owner_user_id;
  finding = f;
  created_at = timestamp;
}

-- The row of the result, if neither its key nor its references are in the way.
unfoldable pub insert_result : ResearchClaim → Finding → ℕ → Database → Option (List ResultRow)
insert_result claim f timestamp db =
    if any (λ r. r.job_id == claim.job_id && r.finding.result_key == f.result_key) db.results
      || not (any (λ j. j.job_id == claim.job_id) db.jobs)
      || not (any (λ b. b.batch_id == claim.batch_id) db.batches)
    then none
    else some (
        db.results
        ++ record {
          job_id = claim.job_id;
          batch_id = claim.batch_id;
          owner_user_id = claim.owner_user_id;
          finding = f;
          created_at = timestamp;
        }
          ∷ [])

-- What `finishJob` is called with, by the outcome and the attempts made.
unfoldable pub finish_as : String → ResearchOutcome → ℕ → ℕ → List JobRow → List JobRow
unfolding backoff_ms finish_job
finish_as job_id (evidence f) attempts timestamp =
    finish_job job_id completed timestamp none f.cost_units none
finish_as job_id (nothing_found s c) attempts timestamp =
    finish_job job_id no_result timestamp (some (nothing_found s c)) c none
finish_as job_id (waiting_challenge c s) attempts timestamp =
    finish_job job_id waiting_source_login timestamp (some (waiting_challenge c s)) 0 none
finish_as job_id (retryable_failure s) attempts timestamp =
    if leb 5 attempts
    then finish_job job_id failed_final timestamp (some (retryable_failure s)) 0 none
    else finish_job job_id failed_retryable timestamp (some (retryable_failure s)) 0
        (some (timestamp + backoff_ms attempts))
finish_as job_id (final_failure s) attempts timestamp =
    finish_job job_id failed_final timestamp (some (final_failure s)) 0 none

-- Only evidence adds a row of its own.
unfoldable pub add_result : ResearchClaim → ResearchOutcome → ℕ → Database → Option (List ResultRow)
unfolding insert_result
add_result claim (evidence f) timestamp db = insert_result claim f timestamp db
add_result claim _ timestamp db = some db.results

unfoldable pub is_committed : ResearchClaim → ResearchOutcome → List ResultRow → Bool
is_committed claim (evidence f) results =
    any (λ r. r.job_id == claim.job_id && r.finding.result_key == f.result_key) results
is_committed claim _ results = false

-- The part of `complete` under the lock of the row.
unfoldable pub commit :
    ResearchClaim
    → ResearchOutcome
    → ℕ
    → Database
    → JobRow
    → Option (List ResultRow)
    → Outcome CompleteStatus × Database
unfolding finish_as
commit claim outcome timestamp db j none = (thrown database_rejected, db)
commit claim outcome timestamp db j (some results) = (
  returned committed,
  record db {
    jobs = finish_as claim.job_id outcome j.attempt_count timestamp db.jobs;
    results = results;
    batches =
        update_where (λ b. b.batch_id == claim.batch_id) (λ b. record b { updated_at = timestamp })
          db.batches;
  },
)

unfoldable pub complete_locked :
    ResearchClaim
    → ResearchOutcome
    → ℕ
    → Database
    → Option JobRow
    → Outcome CompleteStatus × Database
unfolding commit add_result
complete_locked claim outcome timestamp db none = (returned CompleteStatus.lease_lost, db)
complete_locked claim outcome timestamp db (some j) =
    commit claim outcome timestamp db j (add_result claim outcome timestamp db)

-- `locked_at` is the clock when the lease is looked at, `timestamp` when the rows are written.
unfoldable pub complete :
    ResearchClaim → ResearchOutcome → ℕ → ℕ → Database → Outcome CompleteStatus × Database
unfolding is_committed holds_lease complete_locked
complete claim outcome locked_at timestamp db =
    if is_committed claim outcome db.results
    then (returned already_committed, db)
    else complete_locked claim outcome timestamp db
        (first_row (select (holds_lease claim locked_at) db.jobs))
