-- ===== src/Worker/Rounds.antt =====
-- apps/source-worker/src/worker.ts: how often a round completes its job.
use choice_mind.Prelude.{ℕ, suc, ◌+◌, ◌≡◌, ◌≤◌, ◌⊎◌, Bool, true, false, [], ◌∷◌, Option, none, some}
use choice_mind.Worker.{PortCall, adapter_ran, completed, History, Round}

-- The completions on record, and the runs of an adapter that lost their lease.
abbrev pub completions : History → ℕ
completions [] = 0
completions (completed claim outcome ∷ h) = suc (completions h)
completions (_ ∷ h) = completions h

abbrev pub losses : History → ℕ
losses [] = 0
losses (adapter_ran claim true ∷ h) = suc (losses h)
losses (_ ∷ h) = losses h

abbrev is_quiet : PortCall → Bool
is_quiet (completed claim outcome) = false
is_quiet (adapter_ran claim lost) = false
is_quiet _ = true

-- From so many completions and losses on: what the round says is what it did, at most one completion, and
-- none after a loss.
abbrev Counts : ℕ → ℕ → Option Round × History → Type 0
Counts c l (some r, h) =
    (completions h ≡ c + r.completed_jobs)
    × (r.completed_jobs ≤ 1)
    × ((losses h ≡ l) ⊎ (r.completed_jobs ≡ 0))
Counts c l (none, h) = (completions h ≤ c + 1) × ((losses h ≡ l) ⊎ (completions h ≡ c))

-- The record has these counts.
abbrev At : ℕ → ℕ → History → Type 0
At c l h = (completions h ≡ c) × (losses h ≡ l)
