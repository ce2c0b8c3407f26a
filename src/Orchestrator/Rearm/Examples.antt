-- ===== src/Orchestrator/Rearm/Examples.antt =====
-- A start with an open job, one whose deadline is over, and one which the chain does not have.
use audit_guard.Prelude.{ℕ, refl, true, none, some, [], ◌∷◌, ◌===◌, if◌then◌else◌, arith}
use audit_guard.Prelude.Map
use audit_guard.Orchestrator.Hydration.{ChainJob}
use audit_guard.Orchestrator.Rearm.{State, Config, World}
use audit_guard.Orchestrator.Rearm.Timers.{IsOpen}

abbrev config : Config
config = record {
  enabled = true;
  max_jobs = 3;
  timing = record { grace_ms = 500; winner_wait_ms = 1000 };
  is_address = λ s. s === "0xc";
}

abbrev chain_job : ℕ → ChainJob
chain_job deadline = record {
  status = some 0;
  contract_address = some "0xc";
  contract_type = none;
  auction_deadline = some deadline;
}

abbrev world : World
world = record {
  active_jobs = some ("7" ∷ "8" ∷ "9" ∷ []);
  chain_job = λ key.
      if key === "7"
      then some (some (chain_job 70))
      else if key === "8"
      then some (some (chain_job 20))
      else none;
  now_ms = 60000;
  clock_ms = λ key. 60100;
}

abbrev state : State
state = record { tracked = record { jobs = []; timers = [] }; details = [] }

is_open : IsOpen config world "7" 70
is_open = (chain_job 70, refl, refl, refl, omega arith)
