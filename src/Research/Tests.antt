-- ===== src/Research/Tests.antt =====
-- The queue of source research jobs on a sample: one batch of two sources and two workers.
use choice_mind.Prelude.{
  ℕ, String, ◌≡◌, ◌≢◌, ◌⊎◌, ◌≤◌, ◌+◌, refl, true, false, List, [], ◌∷◌, ◌++◌, none, some, All, any,
  arith, eqb, if◌then◌else◌, length, ◌==◌, map, eq_iff,
}
use choice_mind.Js.Sorting.{text_lt}
use choice_mind.Research.Tables.{
  queued, running, completed, failed_final, BatchState, evidence, retryable_failure, final_failure,
  Finding, JobRow, ResultRow, Database, returned, thrown, source_research_idempotency_conflict,
  ResearchClaim,
}
use choice_mind.Research.Tables.Rows.{In}
use choice_mind.Research.Consistency.{IsConsistent}
use choice_mind.Research.Queue.{
  empty, claimed, RenewStatus, SaveStatus, CompleteStatus, committed, claim_next, renew_lease,
  save_checkpoint, complete,
}
use choice_mind.Research.Queue.Oldest.{IsClaimable, IsNotAfter, claim_next-Oldest}
use choice_mind.Research.Queue.Fencing.{claim_next-fences}
use choice_mind.Research.Queue.Holding.{EndedAs, results_of, claim_next-complete}
use choice_mind.Research.Batches.{
  Platform, CreateBatchCommand, create_batch, fingerprint_of, is_invalid,
}
use choice_mind.Research.Views.{ResearchBatch, is_terminal, batch_state}
use choice_mind.Research.Views.State.{batch_state-Means, Means}
use choice_mind.Research.Batches.Replays.{create_batch-create_batch}
use choice_mind.Research.Calls.{Call, create, claim, finish, run, apply, no_rows}
use choice_mind.Research.Calls.Reached.{run-IsConsistent}
use choice_mind.Research.Calls.Settled.{run-IsSettled}
use choice_mind.Research.Calls.Attempts.{resumptions}
use choice_mind.Research.Calls.Claims.{times_handed_out, run-attempts_bounded}

abbrev platform : Platform
platform = record {
  trim = λ s. s;
  locale_before = text_lt;
  fingerprint = λ task query sources. query;
}

abbrev new_id : ℕ → String
new_id i = if eqb i 0 then "j1" else "j2"

abbrev request : CreateBatchCommand
request = record {
  batch_id = "b1";
  owner_user_id = "u1";
  decision_task_id = "d1";
  idempotency_key = "k1";
  query = "folding tables";
  sources =
      record { source_id = "shop"; source_account_id = "a1" }
      ∷ record { source_id = "forum"; source_account_id = "a2" }
      ∷ [];
}

-- Another query under the same key.
abbrev other_request : CreateBatchCommand
other_request = record request { batch_id = "b2"; query = "chairs" }

abbrev claim_j1 : ResearchClaim
claim_j1 = record {
  job_id = "j1";
  batch_id = "b1";
  owner_user_id = "u1";
  decision_task_id = "d1";
  query = "folding tables";
  source_id = "forum";
  source_account_id = "a2";
  checkpoint = none;
  worker_id = "w1";
  attempt_count = 1;
}

abbrev finding : Finding
finding = record { result_key = "r"; evidence_id = "e1"; summary = "sturdy"; cost_units = 3 }

-- The batch is created, its first job claimed and completed with evidence, its second left by its worker.
abbrev calls : List Call
calls =
    create new_id 100 request 100
    ∷ claim (λ _. false) "w1" 50 110
    ∷ finish claim_j1 (evidence finding) 120 121
    ∷ claim (λ _. false) "w1" 50 130
    ∷ []

abbrev created : List Call
created = create new_id 100 request 100 ∷ []

calls_states : map (λ j. j.state) (run platform calls no_rows).jobs ≡ completed ∷ running ∷ []
unfolding run apply create_batch claim_next complete text_lt
calls_states = refl

calls_results : length (run platform calls no_rows).results ≡ 1
unfolding run apply create_batch claim_next complete text_lt
calls_results = refl

run-IsConsistent_example :
    IsConsistent (run platform calls no_rows).jobs (run platform calls no_rows).results
run-IsConsistent_example = run-IsConsistent platform calls

-- Afterwards the second worker tries the first job's claim again.
run-IsSettled_example :
    let db = run platform calls no_rows in
    let db' = run platform (finish claim_j1 (final_failure "late") 140 141 ∷ []) db in
    ((j : JobRow) → In j db.jobs → is_terminal j.state ≡ true → In j db'.jobs)
    × ((r : ResultRow) → In r db.results → In r db'.results)
run-IsSettled_example =
    run-IsSettled platform calls (finish claim_j1 (final_failure "late") 140 141 ∷ []) (λ h. h, tt)

run-attempts_bounded_example :
    All
      (λ j.
        (j.attempt_count ≡ times_handed_out platform j.job_id calls no_rows 0)
        × (times_handed_out platform j.job_id calls no_rows 0 ≤ 5 + resumptions calls))
      (run platform calls no_rows).jobs
run-attempts_bounded_example = run-attempts_bounded platform calls

claim_next-Oldest_example :
    let db = run platform created no_rows in
    (((claim_next (λ _. false) "w1" 50 110 db).0 ≡ returned empty)
      × ((k : JobRow) → In k db.jobs → ¬ IsClaimable (λ _. false) 110 k))
    ⊎ ((j : JobRow) × ((claim_next (λ _. false) "w1" 50 110 db).0
          ≡ returned (
              claimed (record {
                job_id = j.job_id;
                batch_id = j.batch_id;
                owner_user_id = j.owner_user_id;
                decision_task_id = j.decision_task_id;
                query = j.query;
                source_id = j.source_id;
                source_account_id = j.source_account_id;
                checkpoint = j.checkpoint;
                worker_id = "w1";
                attempt_count = j.attempt_count + 1;
              })))
        × In j db.jobs
        × IsClaimable (λ _. false) 110 j
        × ((k : JobRow) → In k db.jobs → IsClaimable (λ _. false) 110 k → IsNotAfter j k))
claim_next-Oldest_example =
    claim_next-Oldest (λ _. false) "w1" 50 110 (run platform created no_rows) refl

-- The first worker's lease runs out at 160, and the second claims the job at 200.
abbrev left_behind : List Call
left_behind = create new_id 100 request 100 ∷ claim (λ _. false) "w1" 50 110 ∷ []

abbrev reclaimed : Database
reclaimed = (claim_next (λ _. false) "w2" 50 200 (run platform left_behind no_rows)).1

abbrev second_claim : ResearchClaim
second_claim = record claim_j1 { worker_id = "w2"; attempt_count = 2 }

second_claim-handed_out :
    claim_next (λ _. false) "w2" 50 200 (run platform left_behind no_rows)
    ≡ (returned (claimed second_claim), reclaimed)
unfolding run apply create_batch claim_next text_lt
second_claim-handed_out = refl

w1-ne-w2 : ◌≢◌ {A = String} "w1" "w2"
w1-ne-w2 e = cc ((eq_iff "w1" "w2").1 e)

claim_next-fences_example :
    (complete claim_j1 (evidence finding) 210 211 reclaimed
      ≡ (returned CompleteStatus.lease_lost, reclaimed))
    × (save_checkpoint claim_j1 (some "{}") 210 reclaimed ≡ (SaveStatus.lease_lost, reclaimed))
    × (renew_lease claim_j1 50 210 reclaimed ≡ (returned RenewStatus.lease_lost, reclaimed))
claim_next-fences_example =
    claim_next-fences (λ _. false) "w2" 50 200 (run platform left_behind no_rows) reclaimed
      second_claim claim_j1 (evidence finding) (some "{}") 210 50 211
      (run-IsConsistent platform left_behind) second_claim-handed_out refl w1-ne-w2 refl

batch_present : any (λ b. b.batch_id == "b1") (run platform left_behind no_rows).batches ≡ true
unfolding run apply create_batch claim_next text_lt
batch_present = refl

claim_next-complete_example :
    (db'' : Database) × (complete second_claim (retryable_failure "busy") 240 241 reclaimed
      ≡ (returned committed, db''))
    × ((x : JobRow) × In x db''.jobs × EndedAs second_claim (retryable_failure "busy") 241 x)
    × (db''.results
        ≡ (run platform left_behind no_rows).results
          ++ results_of second_claim (retryable_failure "busy") 241)
claim_next-complete_example =
    claim_next-complete (λ _. false) "w2" 50 200 (run platform left_behind no_rows) reclaimed
      second_claim (retryable_failure "busy") 240 241 (run-IsConsistent platform left_behind)
      second_claim-handed_out batch_present (omega arith)

batch_state-Means_example :
    Means (completed ∷ failed_final ∷ []) (batch_state (completed ∷ failed_final ∷ []))
batch_state-Means_example = batch_state-Means (completed ∷ failed_final ∷ [])

abbrev first_batch : Database
first_batch = (create_batch platform new_id 100 request 100 no_rows).1

abbrev view : ResearchBatch
view = record {
  batch_id = "b1";
  owner_user_id = "u1";
  decision_task_id = "d1";
  query = "folding tables";
  state = BatchState.queued;
  cost_units = 0;
  jobs =
      record {
        job_id = "j1";
        source_id = "forum";
        source_account_id = "a2";
        state = queued;
        login_session_id = none;
      }
      ∷ record {
        job_id = "j2";
        source_id = "shop";
        source_account_id = "a1";
        state = queued;
        login_session_id = none;
      }
      ∷ [];
  results = [];
  created_at = 100;
  updated_at = 100;
}

first_batch-returned :
    create_batch platform new_id 100 request 100 no_rows ≡ (returned view, first_batch)
unfolding create_batch text_lt
first_batch-returned = refl

other_request-valid : is_invalid platform other_request ≡ false
unfolding is_invalid
other_request-valid = refl

create_batch-create_batch_example :
    create_batch platform new_id 300 other_request 300 first_batch ≡ (
      if fingerprint_of platform request == fingerprint_of platform other_request
          then returned view
          else thrown source_research_idempotency_conflict,
      first_batch,
    )
create_batch-create_batch_example =
    create_batch-create_batch platform new_id new_id 100 300 request other_request 100 300 no_rows
      first_batch view first_batch-returned refl refl other_request-valid
