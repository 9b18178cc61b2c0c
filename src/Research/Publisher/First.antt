-- ===== src/Research/Publisher/First.antt =====
-- packages/source-research/src/notification-publisher.ts: the rows that one call reads.
use choice_mind.Prelude.{
  ℕ, zero, suc, ◌≡◌, ◌≤◌, refl, inl, inr, true, List, [], ◌∷◌, none, some, if◌then◌else◌, arith,
  All, All-map, Bool-cases, Option-cases, leb, select, take,
}
use choice_mind.Research.Tables.{OutboxRow, count_where, insert_row, order_by}
use choice_mind.Research.Tables.Rows.{In, All-insert_row, All-order_by, All-at, In-select}
use choice_mind.Research.Tables.Ordering.{In-order_by}
use choice_mind.Research.Publisher.{is_pending, pending_batch, id_before}

-- The number of unpublished rows with an id up to this one.
abbrev pub unpublished_up_to : ℕ → List OutboxRow → ℕ
unpublished_up_to k [] = 0
unpublished_up_to k (row ∷ rows) = elim row.published_at [
  | none ↦ if leb row.outbox_id k then suc (unpublished_up_to k rows) else unpublished_up_to k rows
  | some at ↦ unpublished_up_to k rows
]

abbrev up_to : ℕ → List OutboxRow → ℕ
up_to k rows = count_where (λ r. leb r.outbox_id k) rows

up_to-select :
    (k : ℕ) (rows : List OutboxRow) → up_to k (select is_pending rows) ≡ unpublished_up_to k rows
up_to-select k [] = refl
up_to-select k (row ∷ rows) = elim (Option-cases row.published_at) [
  | inl e ↦ rw (e, up_to-select k rows) refl
  | inr (at, e) ↦ rw (e, up_to-select k rows) refl
]

up_to-insert_row :
    (k : ℕ) (x : OutboxRow) (rows : List OutboxRow)
    → up_to k (insert_row id_before x rows) ≡ up_to k (x ∷ rows)
unfolding insert_row
up_to-insert_row k x [] = refl
up_to-insert_row k x (y ∷ rows) = ground (arith, up_to-insert_row k x rows)

up_to-order_by : (k : ℕ) (rows : List OutboxRow) → up_to k (order_by id_before rows) ≡ up_to k rows
unfolding order_by
up_to-order_by k [] = refl
up_to-order_by k (x ∷ rows) =
    ground (arith, up_to-insert_row k x (order_by id_before rows), up_to-order_by k rows)

abbrev IsAscending : List OutboxRow → Type 0
IsAscending [] = Unit {0}
IsAscending (x ∷ rows) = All (λ y. x.outbox_id ≤ y.outbox_id) rows × IsAscending rows

insert_row-IsAscending :
    (x : OutboxRow) (rows : List OutboxRow)
    → IsAscending rows
    → IsAscending (insert_row id_before x rows)
unfolding insert_row
insert_row-IsAscending x [] h = (tt, tt)
insert_row-IsAscending x (y ∷ rows) (h, hs) = elim (Bool-cases (id_before y x)) [
  | inl e ↦ rw e (
    All-insert_row (λ z. y.outbox_id ≤ z.outbox_id) id_before x rows (ground arith) h,
    insert_row-IsAscending x rows hs,
  )
  | inr e ↦ rw e ((ground arith, All-map (λ z l. ground arith) rows h), (h, hs))
]

order_by-IsAscending : (rows : List OutboxRow) → IsAscending (order_by id_before rows)
unfolding order_by
order_by-IsAscending [] = tt
order_by-IsAscending (x ∷ rows) =
    insert_row-IsAscending x (order_by id_before rows) (order_by-IsAscending rows)

-- In an ascending list, a row with at most n rows up to its id is among the first n.
In-take :
    (n : ℕ) (rows : List OutboxRow) (p : OutboxRow)
    → IsAscending rows
    → In p rows
    → up_to p.outbox_id rows ≤ n
    → In p (take n rows)
In-take n [] p h i few = absurd i
In-take zero (x ∷ rows) p (h, hs) i few = elim i [
  | inl e ↦ let same : x.outbox_id ≡ p.outbox_id = cc in absurd (ground arith)
  | inr j ↦
      let low : x.outbox_id ≤ p.outbox_id = All-at (λ y. x.outbox_id ≤ y.outbox_id) rows p h j in
      absurd (ground arith)
]
In-take (suc n) (x ∷ rows) p (h, hs) i few = elim i [
  | inl e ↦ inl e
  | inr j ↦
      let low : x.outbox_id ≤ p.outbox_id = All-at (λ y. x.outbox_id ≤ y.outbox_id) rows p h j in
      inr (In-take n rows p hs j (ground arith))
]

-- An unpublished row with at most a hundred unpublished rows up to its id is read.
pub In-pending_batch :
    (outbox : List OutboxRow) (p : OutboxRow)
    → In p outbox
    → p.published_at ≡ none
    → unpublished_up_to p.outbox_id outbox ≤ 100
    → In p (pending_batch outbox)
unfolding pending_batch
In-pending_batch outbox p here open_ few =
    let pending : is_pending p ≡ true = rw open_ refl in
    let rows = select is_pending outbox in
    let same = up_to-order_by p.outbox_id rows in
    let same' = up_to-select p.outbox_id outbox in
    In-take 100 (order_by id_before rows) p (order_by-IsAscending rows)
      (In-order_by id_before (λ a b h. ground arith) (λ a b c h k. ground arith) p rows
        (In-select is_pending outbox p pending here))
      (omega (arith, same, same', few))

All-take :
    (P : OutboxRow → Type 0) (n : ℕ) (rows : List OutboxRow) → All P rows → All P (take n rows)
All-take P zero rows h = tt
All-take P (suc n) [] h = tt
All-take P (suc n) (x ∷ rows) (h, hs) = (h, All-take P n rows hs)

All-pending :
    (P : OutboxRow → Type 0) (rows : List OutboxRow)
    → All (λ r. is_pending r ≡ true → P r) rows
    → All P (select is_pending rows)
All-pending P [] h = tt
All-pending P (x ∷ rows) (h, hs) = elim (Bool-cases (is_pending x)) [
  | inl e ↦ rw e (h e, All-pending P rows hs)
  | inr e ↦ rw e (All-pending P rows hs)
]

pub All-pending_batch :
    (P : OutboxRow → Type 0) (outbox : List OutboxRow)
    → All (λ r. is_pending r ≡ true → P r) outbox
    → All P (pending_batch outbox)
unfolding pending_batch
All-pending_batch P outbox h =
    All-take P 100 _ (All-order_by P id_before (select is_pending outbox) (All-pending P outbox h))
