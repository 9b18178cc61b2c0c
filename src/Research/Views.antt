-- ===== src/Research/Views.antt =====
-- packages/source-research/src/index.ts: `readBatch`, and `read` over it.
pub mod State
use Prim.Native.Char.{nul}
use Prim.Native.String.{◌++◌ as ◌+text◌}
use choice_mind.Prelude.{
  ℕ, String, ◌+◌, Bool, true, false, not, ◌&&◌, ◌||◌, List, [], ◌∷◌, ◌++◌, map, Option, none, some,
  if◌then◌else◌, ◌==◌, ltb, eqb, length, any, all, find, select,
}
use choice_mind.Js.Sorting.{text_lt, code_units}
use choice_mind.Research.Tables.{
  JobState, queued, BatchState, running, waiting_source_login, completed, failed, ResearchOutcome,
  waiting_challenge, Finding, BatchRow, JobRow, ResultRow, OutboxRow, Database, ResearchError,
  source_research_batch_invalid, source_research_idempotency_conflict,
  source_research_batch_not_found, database_rejected, Outcome, returned, thrown, is_running,
  is_waiting, is_completed, is_no_result, is_failed_final, update_where, count_where, order_by,
  first_row, job_before,
}

pub record JobView : Type 0 where
  pub job_id : String
  pub source_id : String
  pub source_account_id : String
  pub state : JobState
  pub login_session_id : Option String

pub record ResearchBatch : Type 0 where
  pub batch_id : String
  pub owner_user_id : String
  pub decision_task_id : String
  pub query : String
  pub state : BatchState
  pub cost_units : ℕ
  pub jobs : List JobView
  pub results : List Finding
  pub created_at : ℕ
  pub updated_at : ℕ

abbrev has_login : Option ResearchOutcome → Option String
has_login (some (waiting_challenge c s)) = some s
has_login _ = none

unfoldable pub job_view : JobRow → JobView
job_view j = record {
  job_id = j.job_id;
  source_id = j.source_id;
  source_account_id = j.source_account_id;
  state = j.state;
  login_session_id = if is_waiting j.state then has_login j.outcome else none;
}

abbrev pub is_terminal : JobState → Bool
is_terminal s = is_completed s || is_no_result s || is_failed_final s

-- The state that `readBatch` derives from the states of the jobs.
unfoldable pub batch_state : List JobState → BatchState
batch_state states =
    if any is_waiting states
    then waiting_source_login
    else if all is_terminal states && any is_failed_final states
    then failed
    else if all (λ s. is_completed s || is_no_result s) states
    then completed
    else if any is_running states
    then BatchState.running
    else BatchState.queued

abbrev pub sum_costs : List JobRow → ℕ
sum_costs [] = 0
sum_costs (j ∷ js) = j.cost_units + sum_costs js

-- `ORDER BY created_at, result_key`
unfoldable pub result_before : ResultRow → ResultRow → Bool
result_before a b =
    ltb a.created_at b.created_at
    || (eqb a.created_at b.created_at && text_lt a.finding.result_key b.finding.result_key)

unfoldable pub batch_view : BatchRow → List JobRow → List ResultRow → ResearchBatch
unfolding batch_state job_view
batch_view batch jobs results = record {
  batch_id = batch.batch_id;
  owner_user_id = batch.owner_user_id;
  decision_task_id = batch.decision_task_id;
  query = batch.query;
  state = batch_state (map (λ j. j.state) jobs);
  cost_units = sum_costs jobs;
  jobs = map job_view jobs;
  results = map (λ r. r.finding) results;
  created_at = batch.created_at;
  updated_at = batch.updated_at;
}

unfoldable pub read_batch : Database → String → String → Option ResearchBatch
unfolding batch_view order_by job_before result_before
read_batch db batch_id owner_user_id =
    elim (find (λ b. b.batch_id == batch_id && b.owner_user_id == owner_user_id) db.batches) [
      | none ↦ none
      | some batch ↦ some (
          batch_view batch (order_by job_before (select (λ j. j.batch_id == batch_id) db.jobs))
            (order_by result_before (select (λ r. r.batch_id == batch_id) db.results)))
    ]

-- `ORDER BY updated_at DESC, batch_id DESC`
unfoldable pub later_batch : BatchRow → BatchRow → Bool
later_batch a b =
    ltb b.updated_at a.updated_at
    || (eqb a.updated_at b.updated_at && text_lt b.batch_id a.batch_id)

unfoldable pub read_batch_for_task : Database → String → String → Option ResearchBatch
unfolding read_batch later_batch
read_batch_for_task db decision_task_id owner_user_id =
    elim (first_row (
      order_by later_batch (
        select (λ b. b.decision_task_id == decision_task_id && b.owner_user_id == owner_user_id)
          db.batches))) [ none ↦ none | some batch ↦ read_batch db batch.batch_id owner_user_id ]

unfoldable pub require_batch : Option ResearchBatch → Outcome ResearchBatch
require_batch none = thrown source_research_batch_not_found
require_batch (some b) = returned b
