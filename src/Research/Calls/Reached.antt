-- ===== src/Research/Calls/Reached.antt =====
-- packages/source-research/src/index.ts: what holds of the tables after any calls at all.
use choice_mind.Prelude.{List, [], ◌∷◌}
use choice_mind.Research.Tables.{Database}
use choice_mind.Research.Consistency.{IsConsistent}
use choice_mind.Research.Queue.Consistent.{
  claim_next-IsConsistent, renew_lease-IsConsistent, save_checkpoint-IsConsistent,
}
use choice_mind.Research.Queue.Completed.{complete-IsConsistent}
use choice_mind.Research.Batches.{Platform}
use choice_mind.Research.Batches.Consistent.{
  create_batch-IsConsistent, resume_source-IsConsistent, purge-IsConsistent,
}
use choice_mind.Research.Calls.{
  Call, create, resume, claim, renew, save, finish, purge, apply, run, no_rows,
}

pub apply-IsConsistent :
    (platform : Platform) (c : Call) (db : Database)
    → IsConsistent db.jobs db.results
    → IsConsistent (apply platform c db).jobs (apply platform c db).results
unfolding apply
apply-IsConsistent platform (create new_id clock command t) db h =
    create_batch-IsConsistent platform new_id clock command t db h
apply-IsConsistent platform (resume command t) db h = resume_source-IsConsistent command t db h
apply-IsConsistent platform (claim locked worker_id lease_ms t) db h =
    claim_next-IsConsistent locked worker_id lease_ms t db h
apply-IsConsistent platform (renew c lease_ms t) db h = renew_lease-IsConsistent c lease_ms t db h
apply-IsConsistent platform (save c checkpoint t) db h =
    save_checkpoint-IsConsistent c checkpoint t db h
apply-IsConsistent platform (finish c outcome locked_at t) db h =
    complete-IsConsistent c outcome locked_at t db h
apply-IsConsistent platform (purge owner_user_id) db h = purge-IsConsistent owner_user_id db h

-- From consistent tables, any sequence of calls leads to consistent tables.
run_kept :
    (platform : Platform) (cs : List Call) (db : Database)
    → IsConsistent db.jobs db.results
    → IsConsistent (run platform cs db).jobs (run platform cs db).results
unfolding run
run_kept platform [] db h = h
run_kept platform (c ∷ cs) db h =
    run_kept platform cs (apply platform c db) (apply-IsConsistent platform c db h)

-- Whatever calls are made from empty tables on, in any order, with any clock readings and also with
-- claims that were never handed out: every running job has a worker, a lease and an attempt, any other
-- job has neither worker nor lease, a job to be tried again was tried one to four times and has a time
-- for it, job ids are unique, every result is of a job that is there and completed, and no job has two
-- results.
pub run-IsConsistent :
    (platform : Platform) (cs : List Call)
    → IsConsistent (run platform cs no_rows).jobs (run platform cs no_rows).results
run-IsConsistent platform cs =
    run_kept platform cs no_rows (record { sound = tt; unique_ids = tt; recorded = tt; once = tt })
