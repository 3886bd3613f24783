-- ===== src/Producer/Retries.antt =====
-- How a publication ends.
use bulk.Base.{ℕ, zero, suc, ◌+◌, ◌≤◌, ◌≡◌, ◌≢◌, ◌⊎◌, Option, none}
use bulk.World.{Error}
use bulk.Producer.{Sending, backoff}

-- The waits before `n` attempts, of which the first is given.
abbrev total_wait : ℕ → ℕ → ℕ
total_wait attempt zero = 0
total_wait attempt (suc n) = backoff attempt + total_wait (suc attempt) n

-- A publication with attempts from one to another stops at one that succeeds, or fails with the error of
-- the last one.
abbrev pub Ends : (ℕ → Option Error) → ℕ → ℕ → Sending → Type 0
Ends answers first last s =
    ((n : ℕ) × (first ≤ n)
      × (n ≤ last)
      × (answers n ≡ none)
      × (s.fault ≡ none)
      × (first + s.writes ≡ suc n))
    ⊎ ((s.fault ≢ none) × (s.fault ≡ answers last) × (first + s.writes ≡ suc last))
