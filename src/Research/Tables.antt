-- ===== src/Research/Tables.antt =====
-- packages/source-research/src/index.ts: the rows of the four tables and the values of the interface.
-- A time is its milliseconds, a JSON column is the text that was written to it, and a cost is a natural
-- number, as the tables demand. An instant plus a lease stays in the range of `Date`.
pub mod Rows
pub mod Ordering
use choice_mind.Prelude.{
  ℕ, String, Bool, true, false, List, [], ◌∷◌, Option, none, some, if◌then◌else◌, ◌==◌, ltb, leb,
  eqb, map, suc, ◌&&◌, ◌||◌,
}
use choice_mind.Js.Sorting.{text_lt}

pub data JobState : Type 0 where
  queued running waiting_source_login completed no_result failed_retryable failed_final : JobState

pub data BatchState : Type 0 where
  queued running waiting_source_login completed failed : BatchState

pub data Challenge : Type 0 where
  qr_code sms captcha : Challenge

pub record Finding : Type 0 where
  pub result_key : String
  pub evidence_id : String
  pub summary : String
  pub cost_units : ℕ

pub data ResearchOutcome : Type 0 where
  evidence : Finding → ResearchOutcome
  nothing_found : String → ℕ → ResearchOutcome
  waiting_challenge : Challenge → String → ResearchOutcome
  retryable_failure : String → ResearchOutcome
  final_failure : String → ResearchOutcome

pub record BatchRow : Type 0 where
  pub batch_id : String
  pub owner_user_id : String
  pub decision_task_id : String
  pub idempotency_key : String
  pub request_fingerprint : String
  pub query : String
  pub created_at : ℕ
  pub updated_at : ℕ

pub record JobRow : Type 0 where
  pub job_id : String
  pub batch_id : String
  pub owner_user_id : String
  pub decision_task_id : String
  pub query : String
  pub source_id : String
  pub source_account_id : String
  pub state : JobState
  pub checkpoint : Option String
  pub outcome : Option ResearchOutcome
  pub worker_id : Option String
  pub lease_expires_at : Option ℕ
  pub attempt_count : ℕ
  pub next_attempt_at : Option ℕ
  pub cost_units : ℕ
  pub created_at : ℕ
  pub updated_at : ℕ

pub record ResultRow : Type 0 where
  pub job_id : String
  pub batch_id : String
  pub owner_user_id : String
  pub finding : Finding
  pub created_at : ℕ

pub record OutboxRow : Type 0 where
  pub outbox_id : ℕ
  pub job_id : String
  pub event_type : String
  pub created_at : ℕ
  pub published_at : Option ℕ

-- `next_outbox_id` is the identity column's counter.
pub record Database : Type 0 where
  pub batches : List BatchRow
  pub jobs : List JobRow
  pub results : List ResultRow
  pub outbox : List OutboxRow
  pub next_outbox_id : ℕ

pub data ResearchError : Type 0 where
  source_research_batch_invalid source_research_idempotency_conflict : ResearchError
  source_research_batch_not_found source_research_write_failed : ResearchError
  source_research_lease_invalid database_rejected : ResearchError

pub data Outcome (A : Type 0) : Type 0 where
  returned : A → Outcome A
  thrown : ResearchError → Outcome A

pub record ResearchClaim : Type 0 where
  pub job_id : String
  pub batch_id : String
  pub owner_user_id : String
  pub decision_task_id : String
  pub query : String
  pub source_id : String
  pub source_account_id : String
  pub checkpoint : Option String
  pub worker_id : String
  pub attempt_count : ℕ

-- `state = '…'` in SQL, `===` in the code.
abbrev pub is_queued : JobState → Bool
is_queued queued = true
is_queued _ = false

abbrev pub is_running : JobState → Bool
is_running running = true
is_running _ = false

abbrev pub is_waiting : JobState → Bool
is_waiting waiting_source_login = true
is_waiting _ = false

abbrev pub is_completed : JobState → Bool
is_completed completed = true
is_completed _ = false

abbrev pub is_no_result : JobState → Bool
is_no_result no_result = true
is_no_result _ = false

abbrev pub is_failed_retryable : JobState → Bool
is_failed_retryable failed_retryable = true
is_failed_retryable _ = false

abbrev pub is_failed_final : JobState → Bool
is_failed_final failed_final = true
is_failed_final _ = false

-- `column <= t` and `column > t`, false at NULL.
abbrev pub is_past : Option ℕ → ℕ → Bool
is_past none t = false
is_past (some at) t = leb at t

abbrev pub is_ahead : Option ℕ → ℕ → Bool
is_ahead none t = false
is_ahead (some at) t = ltb t at

module _ {A : Type 0} where
  -- `UPDATE … SET f WHERE p`, and its row count.
  abbrev pub update_where : (A → Bool) → (A → A) → List A → List A
  update_where p f [] = []
  update_where p f (x ∷ xs) = (if p x then f x else x) ∷ update_where p f xs

  abbrev pub count_where : (A → Bool) → List A → ℕ
  count_where p [] = 0
  count_where p (x ∷ xs) = if p x then suc (count_where p xs) else count_where p xs

  -- `ORDER BY`: a row stands after those that go before it, rows that tie keep their order.
  unfoldable pub insert_row : (A → A → Bool) → A → List A → List A
  insert_row before x [] = x ∷ []
  insert_row before x (y ∷ ys) = if before y x then y ∷ insert_row before x ys else x ∷ y ∷ ys

  unfoldable pub order_by : (A → A → Bool) → List A → List A
  unfolding insert_row
  order_by before [] = []
  order_by before (x ∷ xs) = insert_row before x (order_by before xs)

  -- `LIMIT 1` and `rows[0]`.
  abbrev pub first_row : List A → Option A
  first_row [] = none
  first_row (x ∷ xs) = some x

-- `ORDER BY created_at, job_id`
unfoldable pub job_before : JobRow → JobRow → Bool
job_before a b =
    ltb a.created_at b.created_at || (eqb a.created_at b.created_at && text_lt a.job_id b.job_id)
