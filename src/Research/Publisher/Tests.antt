-- ===== src/Research/Publisher/Tests.antt =====
-- The publisher on a sample of three rows, the second of them published already.
use choice_mind.Prelude.{
  ℕ, ◌≡◌, ◌≢◌, ◌≤◌, ◌⊎◌, refl, true, List, [], ◌∷◌, ◌+◌, Option, none, some, All, Any, map,
}
use choice_mind.Research.Tables.{OutboxRow}
use choice_mind.Research.Tables.Rows.{In}
use choice_mind.Research.Publisher.First.{unpublished_up_to}
use choice_mind.Research.Publisher.{run_once}
use choice_mind.Research.Publisher.Delivery.{SentFor, IsDelivered, IsRejected, run_once-Delivers}

abbrev row : ℕ → Option ℕ → OutboxRow
row id at = record {
  outbox_id = id;
  job_id = "j";
  event_type = "SOURCE_RESEARCH_QUEUED";
  created_at = 1;
  published_at = at;
}

abbrev rows : List OutboxRow
rows = row 3 none ∷ row 2 (some 5) ∷ row 1 none ∷ []

abbrev clock : ℕ → ℕ
clock i = 100 + i

rows_sent : map (λ m. m.outbox_id) (run_once (λ r. true) clock rows).sent ≡ 1 ∷ 3 ∷ []
unfolding run_once
rows_sent = refl

run_once-Delivers_example :
    All
      (λ x. In x rows ⊎ SentFor (run_once (λ r. true) clock rows).sent x)
      (run_once (λ r. true) clock rows).outbox
    × (Any (IsRejected (λ r. true)) rows
        ⊎ (((run_once (λ r. true) clock rows).count ≢ none)
            × ((p : OutboxRow)
                → In p rows
                → p.published_at ≡ none
                → unpublished_up_to p.outbox_id rows ≤ 100
                → IsDelivered p (run_once (λ r. true) clock rows))))
run_once-Delivers_example = run_once-Delivers (λ r. true) clock rows
