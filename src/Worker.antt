-- ===== src/Worker.antt =====
-- apps/source-worker/src/worker.ts: one round of the worker that researches a source.
-- The ports are parameters: what a call answers is a function of the calls before it, and `none` is a
-- rejected promise. Running the adapter under a credential, with its heartbeats and checkpoints, is one call.
pub mod Rounds
pub mod Tests
use choice_mind.Prelude.{
  ℕ, String, Bool, true, false, List, [], ◌∷◌, ◌++◌, Option, none, some, if◌then◌else◌,
}
use choice_mind.Research.Tables.{
  ResearchClaim, ResearchOutcome, waiting_challenge, retryable_failure, final_failure, Challenge,
  qr_code,
}
use choice_mind.Research.Queue.{ClaimResult, empty, claimed, CompleteStatus}
use choice_mind.SourceAccess.Tables.{SourceStatus}
use choice_mind.SourceAccess.Logins.{is_active}
use Prim.Native.String.{◌++◌ as ◌+text◌}

pub data AdapterOutcome : Type 0 where
  researched : ResearchOutcome → AdapterOutcome
  auth_required : Challenge → AdapterOutcome

-- The message of the error that `withCredential` ended with.
pub data RunError : Type 0 where
  source_login_required credential_not_found other_error : RunError

-- What is known when the adapter's call and the last heartbeat have ended.
pub record AdapterRun : Type 0 where
  pub adapter_outcome : Option AdapterOutcome
  pub error : Option RunError
  pub lease_lost : Bool

pub data PortCall : Type 0 where
  claim_asked : PortCall
  status_read login_begun marked_invalid : ResearchClaim → PortCall
  adapter_ran : ResearchClaim → Bool → PortCall
  completed : ResearchClaim → ResearchOutcome → PortCall

abbrev pub History : Type 0
History = List PortCall

-- `adapters` gives an adapter's login page.
pub record Ports : Type 0 where
  pub claim_next : History → Option ClaimResult
  pub adapters : String → Option String
  pub read_status : ResearchClaim → History → Option (Option SourceStatus)
  pub begin_login : ResearchClaim → String → History → Option String
  pub mark_invalid : ResearchClaim → History → Option (Unit {0})
  pub run_adapter : ResearchClaim → History → AdapterRun
  pub complete : ResearchClaim → ResearchOutcome → History → Option CompleteStatus

pub record Round : Type 0 where
  pub claimed_jobs : ℕ
  pub completed_jobs : ℕ

abbrev pub M : Type 0 → Type 0
M A = History → Option A × History

abbrev pub give : {A : Type 0} → A → M A
give a h = (some a, h)

abbrev pub bind_answer : {A B : Type 0} → Option A × History → (A → M B) → Option B × History
bind_answer (none, h) f = (none, h)
bind_answer (some a, h) f = f a h

infixl 5 ◌>>=◌
abbrev pub ◌>>=◌ : {A B : Type 0} → M A → (A → M B) → M B
◌>>=◌ m f h = bind_answer (m h) f

-- A call of a port is on record also where it is rejected.
abbrev pub call : {A : Type 0} → PortCall → (History → Option A) → M A
call c answer h = (answer h, h ++ c ∷ [])

abbrev pub round : ℕ → ℕ → Round
round n m = record { claimed_jobs = n; completed_jobs = m }

abbrev pub is_status_active : Option SourceStatus → Bool
is_status_active none = false
is_status_active (some status) = is_active status.status

module _ (ports : Ports) where
  unfoldable pub complete_with : ResearchClaim → ResearchOutcome → M Round
  complete_with claim outcome = do
    status ← call (completed claim outcome) (ports.complete claim outcome)
    give (round 1 1)

  unfoldable pub begin_login : ResearchClaim → String → M String
  begin_login claim url = call (login_begun claim) (ports.begin_login claim url)

  unfoldable pub mark_invalid : ResearchClaim → M (Unit {0})
  mark_invalid claim = call (marked_invalid claim) (ports.mark_invalid claim)

  -- The `catch`: what a failed run leaves to report.
  unfoldable pub recover : ResearchClaim → String → Option RunError → M (Option ResearchOutcome)
  unfolding begin_login mark_invalid
  recover claim url none = give none
  recover claim url (some other_error) = give (some (retryable_failure "来源研究暂时失败，可从最近检查点恢复"))
  recover claim url (some source_login_required) = do
    _ ← mark_invalid claim
    login ← begin_login claim url
    give (some (waiting_challenge qr_code login))
  recover claim url (some credential_not_found) = do
    _ ← mark_invalid claim
    login ← begin_login claim url
    give (some (waiting_challenge qr_code login))

  -- The adapter's outcome goes before what the `catch` found.
  unfoldable pub conclude :
      ResearchClaim → String → Option AdapterOutcome → Option ResearchOutcome → M Round
  unfolding complete_with begin_login mark_invalid
  conclude claim url (some (auth_required challenge)) recovered = do
    _ ← mark_invalid claim
    login ← begin_login claim url
    complete_with claim (waiting_challenge challenge login)
  conclude claim url (some (researched outcome)) recovered = complete_with claim outcome
  conclude claim url none (some outcome) = complete_with claim outcome
  conclude claim url none none = complete_with claim (retryable_failure "来源 Adapter 未返回结果")

  unfoldable pub after_run : ResearchClaim → String → AdapterRun → Option ResearchOutcome → M Round
  unfolding conclude
  after_run claim url run recovered =
      if run.lease_lost then give (round 1 0) else conclude claim url run.adapter_outcome recovered

  unfoldable pub run_source : ResearchClaim → String → M Round
  unfolding recover after_run
  run_source claim url h =
      let run = ports.run_adapter claim h in
      (recover claim url run.error >>= after_run claim url run)
        (h ++ adapter_ran claim run.lease_lost ∷ [])

  unfoldable pub log_in : ResearchClaim → String → M Round
  unfolding begin_login complete_with
  log_in claim url = do
    login ← begin_login claim url
    complete_with claim (waiting_challenge qr_code login)

  unfoldable pub with_adapter : ResearchClaim → Option String → M Round
  unfolding complete_with run_source log_in
  with_adapter claim none =
      complete_with claim (final_failure ("没有可用的来源 Adapter：" +text claim.source_id))
  with_adapter claim (some url) = do
    status ← call (status_read claim) (ports.read_status claim)
    if is_status_active status then run_source claim url else log_in claim url

  unfoldable pub with_claim : ClaimResult → M Round
  unfolding with_adapter
  with_claim empty = give (round 0 0)
  with_claim (claimed claim) = with_adapter claim (ports.adapters claim.source_id)

  unfoldable pub run_once : M Round
  unfolding with_claim
  run_once = call claim_asked ports.claim_next >>= with_claim
