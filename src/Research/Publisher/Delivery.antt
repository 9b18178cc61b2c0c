-- ===== src/Research/Publisher/Delivery.antt =====
-- packages/source-research/src/notification-publisher.ts: no message is marked that was not sent.
use choice_mind.Prelude.{
  ℕ, suc, ◌≡◌, ◌≢◌, ◌≤◌, ◌⊎◌, refl, ap, sym, subst, inl, inr, Bool, true, List, [], ◌∷◌, ◌++◌, none,
  arith, All, All-map, Any, Any-append, Bool-cases, Option-cases, false, eqb, eqb_iff,
}
use choice_mind.Research.Tables.{OutboxRow, update_where, count_where}
use choice_mind.Research.Tables.Rows.{In, All-at, All-every, All-update_where, All-members}
use choice_mind.Research.Publisher.First.{unpublished_up_to, In-pending_batch, All-pending_batch}
use choice_mind.Research.Publisher.{
  Notification, Published, is_pending, notification, mark, is_marked, publish_rows, pending_batch,
  run_once, add_count,
}

abbrev pub SentFor : List Notification → OutboxRow → Type 0
SentFor sent row = Any (λ m. m.outbox_id ≡ row.outbox_id) sent

module _ (accepts : OutboxRow → Bool) (clock : ℕ → ℕ) where
  publish_rows-SentFor :
      (i n : ℕ) (rows before outbox : List OutboxRow) (sent : List Notification)
      → All (λ x. In x before ⊎ SentFor sent x) outbox
      → All
          (λ x. In x before ⊎ SentFor (publish_rows accepts clock i n rows outbox sent).sent x)
          (publish_rows accepts clock i n rows outbox sent).outbox
  unfolding publish_rows
  publish_rows-SentFor i n [] before outbox sent h = h
  publish_rows-SentFor i n (row ∷ rows) before outbox sent h = elim (Bool-cases (accepts row)) [
    | inr e ↦ rw e h
    | inl e ↦ rw e (
        publish_rows-SentFor (suc i) _ rows before _ (sent ++ notification row ∷ []) (
          All-update_where (λ x. In x before ⊎ SentFor sent x)
            (λ x. In x before ⊎ SentFor (sent ++ notification row ∷ []) x) (is_marked row.outbox_id)
            (mark (clock i)) outbox
            (All-every _ outbox (λ x _ q.
              unfold is_marked mark in
              inr (
                (Any-append _ sent (notification row ∷ [])).1
                  (inr (inl (ground (arith, eqb_iff x.outbox_id row.outbox_id)))))))
            (All-every _ outbox (λ x old _. elim old [
              | inl i' ↦ inl i'
              | inr s ↦ inr ((Any-append _ sent (notification row ∷ [])).1 (inl s))
            ]))
            h))
  ]

  -- A row of the id is not pending, and stays so.
  publish_rows-keeps :
      (k i n : ℕ) (rows outbox : List OutboxRow) (sent : List Notification)
      → All (λ x. is_pending x ≡ true → x.outbox_id ≢ k) outbox
      → All
          (λ x. is_pending x ≡ true → x.outbox_id ≢ k)
          (publish_rows accepts clock i n rows outbox sent).outbox
  unfolding publish_rows
  publish_rows-keeps k i n [] outbox sent h = h
  publish_rows-keeps k i n (row ∷ rows) outbox sent h = elim (Bool-cases (accepts row)) [
    | inr e ↦ rw e h
    | inl e ↦ rw e (
        publish_rows-keeps k (suc i) _ rows _ (sent ++ notification row ∷ []) (
          All-update_where (λ x. is_pending x ≡ true → x.outbox_id ≢ k) _ (is_marked row.outbox_id)
            (mark (clock i)) outbox (All-every _ outbox (λ x _ q p. unfold mark in absurd (cc p)))
            (All-every _ outbox (λ x old _. old)) h))
  ]

  taken :
      (i n : ℕ) (row : OutboxRow) (rows outbox : List OutboxRow) (sent : List Notification)
      → accepts row ≡ true
      → publish_rows accepts clock i n (row ∷ rows) outbox sent
        ≡ publish_rows accepts clock
            (suc i)
            (add_count (eqb (count_where (is_marked row.outbox_id) outbox) 1) n)
            rows
            (update_where (is_marked row.outbox_id) (mark (clock i)) outbox)
            (sent ++ notification row ∷ [])
  unfolding publish_rows
  taken i n row rows outbox sent e = rw e refl

  -- The run ended, and no row of these is pending.
  abbrev Done : List OutboxRow → Published → Type 0
  Done rows r =
      (r.count ≢ none)
      × All (λ p. All (λ x. is_pending x ≡ true → x.outbox_id ≢ p.outbox_id) r.outbox) rows

  publish_rows-marks :
      (i n : ℕ) (rows outbox : List OutboxRow) (sent : List Notification)
      → All (λ r. accepts r ≡ true) rows
      → ((publish_rows accepts clock i n rows outbox sent).count ≢ none)
        × All
            (λ p.
              All
                (λ x. is_pending x ≡ true → x.outbox_id ≢ p.outbox_id)
                (publish_rows accepts clock i n rows outbox sent).outbox)
            rows
  unfolding publish_rows
  publish_rows-marks i n [] outbox sent all_taken = (λ e. cc, tt)
  publish_rows-marks i n (row ∷ rows) outbox sent all_taken =
      let marked = update_where (is_marked row.outbox_id) (mark (clock i)) outbox in
      let (ended, rest) =
        publish_rows-marks (suc i)
          (add_count (eqb (count_where (is_marked row.outbox_id) outbox) 1) n) rows marked
          (sent ++ notification row ∷ []) all_taken.1 in
      subst (Done (row ∷ rows)) (sym (taken i n row rows outbox sent all_taken.0)) (
        ended,
        (
          publish_rows-keeps row.outbox_id (suc i) _ rows marked (sent ++ notification row ∷ []) (
              All-update_where (λ _. Unit {0})
                (λ x. is_pending x ≡ true → x.outbox_id ≢ row.outbox_id) (is_marked row.outbox_id)
                (mark (clock i)) outbox
                (All-every _ outbox (λ x _ q p. unfold mark in absurd (cc p)))
                (All-every _ outbox (λ x _ q p.
                  unfold is_marked in ground (arith, eqb_iff x.outbox_id row.outbox_id)))
                (All-every _ outbox (λ x. tt))),
          rest,
        ),
      )

  publish_rows-sends :
      (i n : ℕ) (rows outbox : List OutboxRow) (sent : List Notification) (m : Notification)
      → All (λ r. accepts r ≡ true) rows
      → In m sent ⊎ Any (λ row. notification row ≡ m) rows
      → In m (publish_rows accepts clock i n rows outbox sent).sent
  unfolding publish_rows
  publish_rows-sends i n [] outbox sent m all_taken (inl h) = h
  publish_rows-sends i n [] outbox sent m all_taken (inr h) = absurd h
  publish_rows-sends i n (row ∷ rows) outbox sent m all_taken h =
      subst (λ r. In m r.sent) (sym (taken i n row rows outbox sent all_taken.0))
        (publish_rows-sends (suc i) _ rows _ (sent ++ notification row ∷ []) m all_taken.1 (elim h [
          | inl old ↦ inl ((Any-append _ sent (notification row ∷ [])).1 (inl old))
          | inr (inl new) ↦ inl ((Any-append _ sent (notification row ∷ [])).1 (inr (inl new)))
          | inr (inr later) ↦ inr later
        ]))

In-notification :
    (rows : List OutboxRow) (p : OutboxRow)
    → In p rows
    → Any (λ row. notification row ≡ notification p) rows
In-notification [] p i = absurd i
In-notification (x ∷ rows) p (inl e) = inl (ap notification e)
In-notification (x ∷ rows) p (inr i) = inr (In-notification rows p i)

-- The notification of the row is sent, and no row of its id is unpublished any more.
abbrev pub IsDelivered : OutboxRow → Published → Type 0
IsDelivered p r =
    In (record { event_type = p.event_type; job_id = p.job_id; outbox_id = p.outbox_id }) r.sent
    × All (λ x. x.outbox_id ≡ p.outbox_id → x.published_at ≢ none) r.outbox

-- An unpublished row that Redis rejects.
abbrev pub IsRejected : (OutboxRow → Bool) → OutboxRow → Type 0
IsRejected accepts row = (row.published_at ≡ none) × (accepts row ≡ false)

accepts_cases :
    (accepts : OutboxRow → Bool) (outbox : List OutboxRow)
    → Any (IsRejected accepts) outbox ⊎ All (λ r. is_pending r ≡ true → accepts r ≡ true) outbox
accepts_cases accepts [] = inr tt
accepts_cases accepts (x ∷ outbox) = elim (accepts_cases accepts outbox) [
  | inl i ↦ inl (inr i)
  | inr rest ↦ elim (Bool-cases (accepts x)) [
    | inl e ↦ inr (λ _. e, rest)
    | inr e ↦ elim (Option-cases x.published_at) [
      | inl open_ ↦ inl (inl (open_, e))
      | inr (at, done) ↦ inr (λ p. absurd (cc (rw done at p)), rest)
    ]
  ]
]

-- After a run of the publisher every row is as it was before, or a notification with its outbox id was
-- sent: none is marked unsent, also where Redis rejects one. Unless Redis rejects an unpublished row, the run
-- comes to its end, and each unpublished row with at most a hundred unpublished rows up to its id, itself
-- included, is delivered: its notification is sent, and no row of its id is left unpublished.
pub run_once-Delivers :
    (accepts : OutboxRow → Bool) (clock : ℕ → ℕ) (outbox : List OutboxRow)
    → All
        (λ x. In x outbox ⊎ SentFor (run_once accepts clock outbox).sent x)
        (run_once accepts clock outbox).outbox
      × (Any (IsRejected accepts) outbox
          ⊎ (((run_once accepts clock outbox).count ≢ none)
              × ((p : OutboxRow)
                  → In p outbox
                  → p.published_at ≡ none
                  → unpublished_up_to p.outbox_id outbox ≤ 100
                  → IsDelivered p (run_once accepts clock outbox))))
unfolding run_once
run_once-Delivers accepts clock outbox = (
  publish_rows-SentFor accepts clock 0 0 (pending_batch outbox) outbox outbox []
      (All-map (λ x i. inl i) outbox (All-members outbox outbox (λ x i. i))),
  elim (accepts_cases accepts outbox) [
    | inl i ↦ inl i
    | inr ok ↦
        let all_taken = All-pending_batch (λ r. accepts r ≡ true) outbox ok in
        let (ended, marks) =
          publish_rows-marks accepts clock 0 0 (pending_batch outbox) outbox [] all_taken in
        inr (
          ended,
          λ p here open_ few.
              let read = In-pending_batch outbox p here open_ few in
              (
                publish_rows-sends accepts clock 0 0 (pending_batch outbox) outbox []
                    (notification p) all_taken
                    (inr (In-notification (pending_batch outbox) p read)),
                All-map (λ x not_open same e. not_open (rw e refl) same) _
                    (All-at _ _ p marks read),
              ),
        )
  ],
)
