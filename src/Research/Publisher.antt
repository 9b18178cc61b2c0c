-- ===== src/Research/Publisher.antt =====
-- packages/source-research/src/notification-publisher.ts: publishing the outbox.
-- `accepts` says which messages Redis takes; `sent` is what it took, oldest first. Where it rejects one, the
-- call ends with its error, and what was marked before stays marked.
pub mod First
pub mod Delivery
pub mod Tests
use choice_mind.Prelude.{
  ℕ, suc, String, ◌+◌, Bool, true, false, ◌&&◌, List, [], ◌∷◌, ◌++◌, Option, none, some,
  if◌then◌else◌, eqb, ltb, select, take,
}
use choice_mind.Research.Tables.{OutboxRow, update_where, count_where, order_by}

pub record Notification : Type 0 where
  pub event_type : String
  pub job_id : String
  pub outbox_id : ℕ

-- The number of the rows that this call marked, if it came to its end; the rows; what was sent.
pub record Published : Type 0 where
  pub count : Option ℕ
  pub outbox : List OutboxRow
  pub sent : List Notification

abbrev pub is_pending : OutboxRow → Bool
is_pending row = elim row.published_at [ none ↦ true | some at ↦ false ]

abbrev pub notification : OutboxRow → Notification
notification row = record {
  event_type = row.event_type;
  job_id = row.job_id;
  outbox_id = row.outbox_id;
}

unfoldable pub mark : ℕ → OutboxRow → OutboxRow
mark now row = record row { published_at = some now }

-- `outbox_id = $1 AND published_at IS NULL`
unfoldable pub is_marked : ℕ → OutboxRow → Bool
is_marked outbox_id row = eqb row.outbox_id outbox_id && is_pending row

abbrev pub add_count : Bool → ℕ → ℕ
add_count true n = suc n
add_count false n = n

-- The loop over the rows that were read; `clock` gives the time of the nth mark.
unfoldable pub publish_rows :
    (OutboxRow → Bool)
    → (ℕ → ℕ)
    → ℕ
    → ℕ
    → List OutboxRow
    → List OutboxRow
    → List Notification
    → Published
unfolding mark is_marked
publish_rows accepts clock i published [] outbox sent = record {
  count = some published;
  outbox = outbox;
  sent = sent;
}
publish_rows accepts clock i published (row ∷ rows) outbox sent =
    let rest =
      publish_rows accepts clock (suc i)
        (add_count (eqb (count_where (is_marked row.outbox_id) outbox) 1) published) rows
        (update_where (is_marked row.outbox_id) (mark (clock i)) outbox)
        (sent ++ notification row ∷ []) in
    if accepts row then rest else record { count = none; outbox = outbox; sent = sent }

abbrev pub id_before : OutboxRow → OutboxRow → Bool
id_before a b = ltb a.outbox_id b.outbox_id

-- `ORDER BY outbox_id LIMIT 100`
unfoldable pub pending_batch : List OutboxRow → List OutboxRow
unfolding order_by
pending_batch outbox = take 100 (order_by id_before (select is_pending outbox))

unfoldable pub run_once : (OutboxRow → Bool) → (ℕ → ℕ) → List OutboxRow → Published
unfolding publish_rows pending_batch
run_once accepts clock outbox = publish_rows accepts clock 0 0 (pending_batch outbox) outbox []
