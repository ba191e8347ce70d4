-- ===== src/Persist/Refusals.antt =====
-- A load that answers an error other than "no room" changes nothing.
use tox_relayer.Prelude.{ℕ, ◌≡◌, ◌⊎◌}
use tox_relayer.Prelude.Int.{ℤ, pos}
use tox_relayer.Queue.{Queue}
use tox_relayer.Persist.{err_noroom}

-- The import loop stops only where the queue is full.
abbrev Finishes : Queue × ℤ → Type 0
Finishes r = ((n : ℕ) × (r.1 ≡ pos n)) ⊎ (r.1 ≡ err_noroom)
