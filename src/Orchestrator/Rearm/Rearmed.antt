-- ===== src/Orchestrator/Rearm/Rearmed.antt =====
-- What a start of orchestrator/src/orchestrator.js leaves: the timers that it sets again.
use audit_guard.Prelude.{ℕ, ◌/◌}
use audit_guard.Prelude.Map
use audit_guard.Orchestrator.Rearm.{Config, World}

module _ (config : Config) (world : World) where
  abbrev now_sec : ℕ
  now_sec = world.now_ms / 1000
