-- ===== src/Research/Calls.antt =====
-- packages/source-research/src/index.ts: the calls that change the tables, in any order and by anybody.
pub mod Reached
pub mod Attempts
pub mod Claims
pub mod Settled
use choice_mind.Prelude.{ℕ, String, Bool, true, false, List, [], ◌∷◌, Option}
use choice_mind.Research.Tables.{JobRow, ResearchOutcome, Database, ResearchClaim}
use choice_mind.Research.Queue.{claim_next, renew_lease, save_checkpoint, complete}
use choice_mind.Research.Batches.{
  Platform, CreateBatchCommand, ResumeSourceCommand, create_batch, resume_source,
  purge_private_data_for_owner,
}

-- A claim may be any value, also one that was never handed out.
pub data Call : Type 0 where
  create : (ℕ → String) → ℕ → CreateBatchCommand → ℕ → Call
  resume : ResumeSourceCommand → ℕ → Call
  claim : (String → Bool) → String → ℕ → ℕ → Call
  renew : ResearchClaim → ℕ → ℕ → Call
  save : ResearchClaim → Option String → ℕ → Call
  finish : ResearchClaim → ResearchOutcome → ℕ → ℕ → Call
  purge : String → Call

unfoldable pub apply : Platform → Call → Database → Database
apply platform (create new_id clock command t) db =
    (create_batch platform new_id clock command t db).1
apply platform (resume command t) db = (resume_source command t db).1
apply platform (claim locked worker_id lease_ms t) db =
    (claim_next locked worker_id lease_ms t db).1
apply platform (renew c lease_ms t) db = (renew_lease c lease_ms t db).1
apply platform (save c checkpoint t) db = (save_checkpoint c checkpoint t db).1
apply platform (finish c outcome locked_at t) db = (complete c outcome locked_at t db).1
apply platform (purge owner_user_id) db = (purge_private_data_for_owner owner_user_id db).1

unfoldable pub run : Platform → List Call → Database → Database
run platform [] db = db
run platform (c ∷ cs) db = run platform cs (apply platform c db)

abbrev pub no_rows : Database
no_rows = record { batches = []; jobs = []; results = []; outbox = []; next_outbox_id = 1 }
