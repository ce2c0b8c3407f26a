-- ===== src/Orchestrator/Drained.antt =====
-- The loop of the write queue empties it (`_drainWriteQueue` of orchestrator/src/contract-client.js).
use audit_guard.Prelude.{suc, ◌≡◌, Option, none, some, List, length}
use audit_guard.Orchestrator.WriteQueue.{Task, WriteQueue}

module _ {A : Type 0} where
  -- How many tasks a choice leaves.
  abbrev Takes : List (Task A) → Option (Task A × List (Task A)) → Type 0
  Takes ts none = length ts ≡ 0
  Takes ts (some (t, rest)) = length ts ≡ suc (length rest)
