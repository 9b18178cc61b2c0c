-- ===== src/Research/Calls/Attempts.antt =====
-- packages/source-research/src/index.ts: the number of times that a job is claimed, over any calls.
use choice_mind.Prelude.{
  ℕ, suc, ◌+◌, ◌≡◌, refl, subst, List, [], ◌∷◌, arith, All, All-map, All-append,
}
use choice_mind.Research.Tables.{JobRow, Database}
use choice_mind.Research.Tables.Rows.{All-every, All-select, All-update_where}
use choice_mind.Research.Consistency.{IsConsistent}
use choice_mind.Research.Queue.Attempts.{
  IsCounted, claim_next-IsCounted, renew_lease-IsCounted, save_checkpoint-IsCounted,
  complete-IsCounted,
}
use choice_mind.Research.Batches.{
  Platform, new_job, resume_source, waits_for, requeue, purge_private_data_for_owner,
}
use choice_mind.Research.Batches.Inserting.{create_batch_rule}
use choice_mind.Research.Calls.{Call, create, resume, claim, renew, save, finish, purge, apply, run}
use choice_mind.Research.Calls.Reached.{apply-IsConsistent}

-- The calls among these that resume a source.
abbrev pub resumptions : List Call → ℕ
resumptions [] = 0
resumptions (resume command t ∷ cs) = suc (resumptions cs)
resumptions (_ ∷ cs) = resumptions cs

-- What one call adds.
abbrev resumed_by : Call → ℕ → ℕ
resumed_by (resume command t) r = suc r
resumed_by _ r = r

resume-IsCounted : (r : ℕ) (j : JobRow) → IsCounted r j → IsCounted (suc r) j
resume-IsCounted r j c = record {
  tried = omega (arith, c.tried);
  left = λ e. omega (arith, c.left e);
}

apply-IsCounted :
    (platform : Platform) (r : ℕ) (c : Call) (db : Database)
    → IsConsistent db.jobs db.results
    → All (IsCounted r) db.jobs
    → All (IsCounted (resumed_by c r)) (apply platform c db).jobs
unfolding apply
apply-IsCounted platform r (create new_id clock command t) db c h =
    create_batch_rule (λ jobs _. All (IsCounted r) jobs)
      (λ jobs results batch id clock' s _ ok.
        (All-append _ jobs (new_job batch id clock' s ∷ [])).1
          (ok, (unfold new_job in record { tried = omega arith; left = λ _. omega arith }, tt)))
      platform new_id clock command t db h
apply-IsCounted platform r (resume command t) db c h =
    unfold resume_source in
    All-update_where (IsCounted r) (IsCounted (suc r)) (waits_for command) (requeue t) db.jobs
      (All-every _ db.jobs (λ j ok _.
        unfold requeue in
        record { tried = omega (arith, ok.tried); left = λ _. omega (arith, ok.tried) }))
      (All-every _ db.jobs (λ j ok _. resume-IsCounted r j ok)) h
apply-IsCounted platform r (claim locked worker_id ms t) db c h =
    claim_next-IsCounted r t locked worker_id ms db c h
apply-IsCounted platform r (renew c' ms t) db c h = renew_lease-IsCounted r c' ms t db h
apply-IsCounted platform r (save c' checkpoint t) db c h =
    save_checkpoint-IsCounted r c' checkpoint t db h
apply-IsCounted platform r (finish c' outcome locked_at t) db c h =
    complete-IsCounted r c' outcome locked_at t db h
apply-IsCounted platform r (purge owner_user_id) db c h =
    unfold purge_private_data_for_owner in
    All-map (λ j q. q.0) _ (All-select (IsCounted r) _ db.jobs h)

resumptions-step :
    (c : Call) (cs : List Call) (r : ℕ) → resumptions cs + resumed_by c r ≡ resumptions (c ∷ cs) + r
resumptions-step (create new_id clock command t) cs r = refl
resumptions-step (resume command t) cs r = omega arith
resumptions-step (claim locked worker_id ms t) cs r = refl
resumptions-step (renew c ms t) cs r = refl
resumptions-step (save c checkpoint t) cs r = refl
resumptions-step (finish c outcome locked_at t) cs r = refl
resumptions-step (purge owner_user_id) cs r = refl

pub run-IsCounted :
    (platform : Platform) (r : ℕ) (cs : List Call) (db : Database)
    → IsConsistent db.jobs db.results
    → All (IsCounted r) db.jobs
    → All (IsCounted (resumptions cs + r)) (run platform cs db).jobs
unfolding run
run-IsCounted platform r [] db c h = subst (λ n. All (IsCounted n) db.jobs) (omega arith) h
run-IsCounted platform r (call ∷ cs) db c h =
    subst (λ n. All (IsCounted n) (run platform (call ∷ cs) db).jobs) (resumptions-step call cs r)
      (run-IsCounted platform (resumed_by call r) cs (apply platform call db)
        (apply-IsConsistent platform call db c) (apply-IsCounted platform r call db c h))
