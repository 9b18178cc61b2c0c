-- ===== src/Research/Queue/Holding.antt =====
-- packages/source-research/src/index.ts: completing a job under the lease that its claim gave.
use mathlib.Core.Option
use mathlib.Core.List.{append-nil}
use choice_mind.Prelude.{
  ℕ, zero, suc, String, ◌+◌, ◌≡◌, ◌<◌, refl, subst, ap, ◌∙◌, Bool, true, false, ◌&&◌, List, [], ◌∷◌,
  ◌++◌, Option, none, some, arith, inl, inr, Bool-cases, ◌==◌, eq_iff, eq_refl, if◌then◌else◌,
  select, any, leb, ltb,
}
use choice_mind.Research.Tables.{
  JobState, completed, no_result, waiting_source_login, failed_retryable, failed_final,
  ResearchOutcome, evidence, nothing_found, waiting_challenge, retryable_failure, final_failure,
  Finding, JobRow, ResultRow, Database, returned, ResearchClaim, update_where, first_row,
}
use choice_mind.Research.Tables.Rows.{
  In, All-at, All-same_key, In-update_where_hit, select-finds, any-In, first_row-select,
}
use choice_mind.Research.Queue.{
  claimed, committed, start, claim_of, retire, claim_next, holds_lease, backoff_ms, finish_row,
  finish_job, finish_as, insert_result, add_result, result_of, commit, complete_locked, complete,
  is_committed,
}
use choice_mind.Research.Queue.Fencing.{claim_next-claimed, no_results}
use choice_mind.Research.Queue.Consistent.{
  next_due-Found, retire-IsConsistent, due-open, held_id, claim_row_some-IsConsistent,
}
use choice_mind.Research.Consistency.{IsConsistent}

-- What each outcome means: the state that the job ends in, by the attempts that it took.
abbrev pub state_after : ResearchOutcome → ℕ → JobState
state_after (evidence f) attempts = completed
state_after (nothing_found s n) attempts = no_result
state_after (waiting_challenge k s) attempts = waiting_source_login
state_after (retryable_failure s) attempts =
    if ltb attempts 5 then failed_retryable else failed_final
state_after (final_failure s) attempts = failed_final

-- A second after the first attempt, then two, four and eight; none after the fifth.
abbrev pub retry_delay : ℕ → Option ℕ
retry_delay (suc zero) = some 1000
retry_delay (suc (suc zero)) = some 2000
retry_delay (suc (suc (suc zero))) = some 4000
retry_delay (suc (suc (suc (suc zero)))) = some 8000
retry_delay _ = none

abbrev pub retry_at : ResearchOutcome → ℕ → ℕ → Option ℕ
retry_at (retryable_failure s) attempts t = Option.map (λ ms. t + ms) (retry_delay attempts)
retry_at _ attempts t = none

-- The job has ended as its outcome says.
abbrev pub EndedAs : ResearchClaim → ResearchOutcome → ℕ → JobRow → Type 0
EndedAs claim outcome t k =
    (k.job_id ≡ claim.job_id)
    × (k.state ≡ state_after outcome claim.attempt_count)
    × (k.next_attempt_at ≡ retry_at outcome claim.attempt_count t)
    × (k.worker_id ≡ none)
    × (k.lease_expires_at ≡ none)

backoff_ms-retry_delay :
    (n t : ℕ)
    → leb 5 (n + 1) ≡ false
    → some (t + backoff_ms (n + 1)) ≡ Option.map (λ ms. t + ms) (retry_delay (n + 1))
unfolding backoff_ms
backoff_ms-retry_delay zero t h = refl
backoff_ms-retry_delay (suc zero) t h = refl
backoff_ms-retry_delay (suc (suc zero)) t h = refl
backoff_ms-retry_delay (suc (suc (suc zero))) t h = refl
backoff_ms-retry_delay (suc (suc (suc (suc n)))) t h = absurd (ground arith)

retry_delay-none : (n : ℕ) → leb 5 n ≡ true → retry_delay n ≡ none
retry_delay-none zero h = refl
retry_delay-none (suc zero) h = ground arith
retry_delay-none (suc (suc zero)) h = ground arith
retry_delay-none (suc (suc (suc zero))) h = ground arith
retry_delay-none (suc (suc (suc (suc zero)))) h = ground arith
retry_delay-none (suc (suc (suc (suc (suc n))))) h = refl

-- A row of the claim's id, made by its n-th attempt and one more, ends as it should.
module _ (claim : ResearchClaim) (t : ℕ) (jobs : List JobRow) (k : JobRow) (here : In k jobs)
    (same : k.job_id ≡ claim.job_id) where
  hit :
      (s : JobState) (o : Option ResearchOutcome) (cost : ℕ) (next : Option ℕ)
      → In (finish_row s t o cost next k) (finish_job claim.job_id s t o cost next jobs)
  unfolding finish_job
  hit s o cost next =
      In-update_where_hit (λ x. x.job_id == claim.job_id) (finish_row s t o cost next) jobs k
        ((eq_iff k.job_id claim.job_id).1 same) here

  finish_as-EndedAs :
      (n : ℕ) (outcome : ResearchOutcome)
      → claim.attempt_count ≡ n + 1
      → (x : JobRow) × In x (finish_as claim.job_id outcome (n + 1) t jobs)
        × EndedAs claim outcome t x
  unfolding finish_as
  finish_as-EndedAs n (evidence f) a = (
    _,
    hit completed none f.cost_units none,
    (unfold finish_row in (same, refl, refl, refl, refl)),
  )
  finish_as-EndedAs n (nothing_found s m) a =
      (_, hit no_result _ m none, (unfold finish_row in (same, refl, refl, refl, refl)))
  finish_as-EndedAs n (waiting_challenge q s) a =
      (_, hit waiting_source_login _ 0 none, (unfold finish_row in (same, refl, refl, refl, refl)))
  finish_as-EndedAs n (final_failure s) a =
      (_, hit failed_final _ 0 none, (unfold finish_row in (same, refl, refl, refl, refl)))
  finish_as-EndedAs n (retryable_failure s) a = elim (Bool-cases (leb 5 (n + 1))) [
    | inl e ↦ rw e (
      _,
      hit failed_final (some (retryable_failure s)) 0 none,
      (unfold finish_row in
          (same, rw a (ground arith), rw a (rw (retry_delay-none (n + 1) e) refl), refl, refl)),
    )
    | inr e ↦ rw e (
      _,
      hit failed_retryable (some (retryable_failure s)) 0 (some (t + backoff_ms (n + 1))),
      (unfold finish_row in
          (same, rw a (ground arith), rw a (backoff_ms-retry_delay n t e), refl, refl)),
    )
  ]

-- The row that an outcome adds to the results.
abbrev pub results_of : ResearchClaim → ResearchOutcome → ℕ → List ResultRow
results_of claim (evidence f) t = result_of claim f t ∷ []
results_of claim _ t = []

add_result-results_of :
    (claim : ResearchClaim) (outcome : ResearchOutcome) (t : ℕ) (db : Database)
    → ((f : Finding)
        → any (λ r. r.job_id == claim.job_id && r.finding.result_key == f.result_key) db.results
          ≡ false)
    → any (λ j. j.job_id == claim.job_id) db.jobs ≡ true
    → any (λ b. b.batch_id == claim.batch_id) db.batches ≡ true
    → add_result claim outcome t db ≡ some (db.results ++ results_of claim outcome t)
unfolding add_result insert_result
add_result-results_of claim (evidence f) t db fresh job batch =
    rw (fresh f) (rw job (rw batch refl))
add_result-results_of claim (nothing_found s n) t db fresh job batch = rw append-nil refl
add_result-results_of claim (waiting_challenge k s) t db fresh job batch = rw append-nil refl
add_result-results_of claim (retryable_failure s) t db fresh job batch = rw append-nil refl
add_result-results_of claim (final_failure s) t db fresh job batch = rw append-nil refl

not_committed :
    (claim : ResearchClaim) (outcome : ResearchOutcome) (results : List ResultRow)
    → ((f : Finding)
        → any (λ r. r.job_id == claim.job_id && r.finding.result_key == f.result_key) results
          ≡ false)
    → is_committed claim outcome results ≡ false
unfolding is_committed
not_committed claim (evidence f) results fresh = fresh f
not_committed claim (nothing_found s n) results fresh = refl
not_committed claim (waiting_challenge k s) results fresh = refl
not_committed claim (retryable_failure s) results fresh = refl
not_committed claim (final_failure s) results fresh = refl

-- `complete` goes through where the row under the lease is known and nothing is in the way.
complete-found :
    (claim : ResearchClaim) (outcome : ResearchOutcome) (at t : ℕ) (db : Database) (k : JobRow)
    (n : ℕ)
    → first_row (select (holds_lease claim at) db.jobs) ≡ some k
    → In k db.jobs
    → k.job_id ≡ claim.job_id
    → k.attempt_count ≡ n + 1
    → claim.attempt_count ≡ n + 1
    → ((f : Finding)
        → any (λ r. r.job_id == claim.job_id && r.finding.result_key == f.result_key) db.results
          ≡ false)
    → any (λ b. b.batch_id == claim.batch_id) db.batches ≡ true
    → (db' : Database) × (complete claim outcome at t db ≡ (returned committed, db'))
      × ((x : JobRow) × In x db'.jobs × EndedAs claim outcome t x)
      × (db'.results ≡ db.results ++ results_of claim outcome t)
unfolding complete complete_locked commit
complete-found claim outcome at t db k n found here same tries tries' fresh batch = (
  record db {
    jobs = finish_as claim.job_id outcome (n + 1) t db.jobs;
    results = db.results ++ results_of claim outcome t;
    batches =
        update_where (λ b. b.batch_id == claim.batch_id) (λ b. record b { updated_at = t })
          db.batches;
  },
  rw (not_committed claim outcome db.results fresh) (
      rw found (
        rw
          (add_result-results_of claim outcome t db fresh
            (any-In _ db.jobs k ((eq_iff k.job_id claim.job_id).1 same) here) batch)
          (rw tries refl))),
  finish_as-EndedAs claim t db.jobs k here same n outcome tries',
  refl,
)

started-held :
    (worker_id : String) (ms t at : ℕ) (j : JobRow)
    → at < t + ms
    → holds_lease (claim_of worker_id j) at (start worker_id ms t j) ≡ true
unfolding holds_lease claim_of start
started-held worker_id ms t at j early =
    rw (eq_refl j.job_id) (rw (eq_refl worker_id) (ground arith))

-- The row that `complete` finds under the lease of a claim is the one that was started for it.
started-found :
    (worker_id : String) (ms t at : ℕ) (jobs : List JobRow) (results : List ResultRow) (j : JobRow)
    → IsConsistent (update_where (λ k. k.job_id == j.job_id) (start worker_id ms t) jobs) results
    → In j jobs
    → at < t + ms
    → let after = update_where (λ k. k.job_id == j.job_id) (start worker_id ms t) jobs in
      (first_row (select (holds_lease (claim_of worker_id j) at) after)
        ≡ some (start worker_id ms t j))
      × In (start worker_id ms t j) after
started-found worker_id ms t at jobs results j c here early =
    let after = update_where (λ k. k.job_id == j.job_id) (start worker_id ms t) jobs in
    let k-here : In (start worker_id ms t j) after =
      In-update_where_hit (λ k. k.job_id == j.job_id) (start worker_id ms t) jobs j
        (eq_refl j.job_id) here in
    let (y, first) =
      select-finds (holds_lease (claim_of worker_id j) at) after (start worker_id ms t j)
        (started-held worker_id ms t at j early) k-here in
    let (y-here, y-held) = first_row-select (holds_lease (claim_of worker_id j) at) after y first in
    let one : y ≡ start worker_id ms t j =
      All-at (λ k. k.job_id ≡ (start worker_id ms t j).job_id → k ≡ start worker_id ms t j) after y
        (All-same_key (λ k. k.job_id) after (start worker_id ms t j) c.unique_ids k-here) y-here
        (held_id (claim_of worker_id j) at y y-held ∙ (unfold claim_of start in refl)) in
    (first ∙ ap some one, k-here)

-- In consistent tables, when `claimNext` has handed out a claim and the claim's batch is there, completing
-- it before the lease has run out is committed: the job ends in the state that the outcome means by the
-- attempts made, free of its worker and lease, to be tried again one, two, four or eight seconds after
-- attempt one to four and never after a fifth, and the results gain the one of the evidence and no other.
pub claim_next-complete :
    (locked : String → Bool) (worker_id : String) (ms t : ℕ) (db db' : Database)
    (claim : ResearchClaim) (outcome : ResearchOutcome) (at t' : ℕ)
    → IsConsistent db.jobs db.results
    → claim_next locked worker_id ms t db ≡ (returned (claimed claim), db')
    → any (λ b. b.batch_id == claim.batch_id) db.batches ≡ true
    → at < t + ms
    → (db'' : Database) × (complete claim outcome at t' db' ≡ (returned committed, db''))
      × ((x : JobRow) × In x db''.jobs × EndedAs claim outcome t' x)
      × (db''.results ≡ db.results ++ results_of claim outcome t')
claim_next-complete locked worker_id ms t db db' claim outcome at t' c e batch early =
    let (j, found, handed, tables) = claim_next-claimed locked worker_id ms t db db' claim e in
    let jobs = retire t db.jobs in
    let kept = retire-IsConsistent t db.jobs db.results c in
    let (here, due) = next_due-Found locked t jobs j found in
    let started = claim_row_some-IsConsistent locked worker_id ms t jobs db.results j kept found in
    let (first, k-here) = started-found worker_id ms t at jobs db.results j started here early in
    let open_ = due-open t (locked j.job_id) j due in
    let batch' : any (λ b. b.batch_id == (claim_of worker_id j).batch_id) db.batches ≡ true =
      subst (λ (x : ResearchClaim). any (λ b. b.batch_id == x.batch_id) db.batches ≡ true) handed
        batch in
    rw (handed, tables)
      (complete-found (claim_of worker_id j) outcome at t'
        (record db { jobs = update_where (λ k. k.job_id == j.job_id) (start worker_id ms t) jobs })
        (start worker_id ms t j) j.attempt_count first k-here (unfold claim_of start in refl)
        (unfold start in refl) (unfold claim_of in refl)
        (unfold claim_of in no_results worker_id ms t jobs db.results j kept here open_) batch')
