-- ===== src/Worker/Tests.antt =====
-- A round of the worker on a sample: the adapter asks for a new login while the lease lasts.
use choice_mind.Prelude.{◌≡◌, refl, false, [], ◌∷◌, none, some}
use choice_mind.Research.Tables.{ResearchClaim, waiting_challenge, captcha}
use choice_mind.Research.Queue.{claimed, committed}
use choice_mind.SourceAccess.Tables.{active}
use choice_mind.Worker.{
  auth_required, claim_asked, status_read, adapter_ran, marked_invalid, login_begun, completed,
  Ports, round, run_once,
}

abbrev claim : ResearchClaim
claim = record {
  job_id = "j1";
  batch_id = "b1";
  owner_user_id = "u1";
  decision_task_id = "d1";
  query = "folding tables";
  source_id = "shop";
  source_account_id = "a1";
  checkpoint = none;
  worker_id = "w1";
  attempt_count = 1;
}

abbrev ports : Ports
ports = record {
  claim_next = λ h. some (claimed claim);
  adapters = λ id. some "https://shop.example/login";
  read_status = λ c h. some (
      some (record {
        owner_user_id = "u1";
        source_id = "shop";
        source_account_id = "a1";
        status = active;
        updated_at = 1;
      }));
  begin_login = λ c url h. some "s1";
  mark_invalid = λ c h. some tt;
  run_adapter = λ c h. record {
    adapter_outcome = some (auth_required captcha);
    error = none;
    lease_lost = false;
  };
  complete = λ c o h. some committed;
}

sample_round : run_once ports [] ≡ (
  some (round 1 1),
  claim_asked
      ∷ status_read claim
      ∷ adapter_ran claim false
      ∷ marked_invalid claim
      ∷ login_begun claim
      ∷ completed claim (waiting_challenge captcha "s1")
      ∷ [],
)
unfolding run_once
sample_round = refl
