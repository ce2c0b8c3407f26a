-- ===== src/Orchestrator/SelectRun/Examples.antt =====
-- A selection whose first transaction meets a low nonce, and one of a job that is not open.
use audit_guard.Prelude.Map
use audit_guard.Prelude.{ℕ, zero, suc, refl, true, false, none, some, [], ◌∷◌, ◌===◌, inl}
use audit_guard.Orchestrator.Choosing.{ChainBid}
use audit_guard.Orchestrator.Selecting.{Config, State, World, Attempt, receipt, throws}
use audit_guard.Orchestrator.Hydration.{Job}
use audit_guard.Orchestrator.SelectRun.{run_select}
use audit_guard.Orchestrator.SelectRun.Outcome.{found_job}
use audit_guard.Orchestrator.SelectRun.Quiet.{IsHeld, IsQuiet, run_select-IsQuiet}

abbrev config : Config
config = record {
  unit = 1;
  rehydrate = true;
  cooldown_ms = 5000;
  announce_window_ms = 100;
  has_bid_api = true;
  is_address = λ s. s === "0xa";
}

abbrev job : Job
job = record {
  contract_address = some "0xc";
  contract_type = none;
  rehydrated_for_selection = false;
  auction_deadline_sec = none;
  bidders = [];
  hcs_bid_count = some 2;
  eligible_invited_count = some 3;
  winners = [];
  failed = false;
  failure_reason = none;
  winner_source = none;
}

abbrev state : State
state = record { jobs = ("7", job) ∷ []; timers = ("7", 90) ∷ []; cooldown = []; announced = [] }

abbrev chain_bid : ChainBid
chain_bid = record {
  agent = some "0xa";
  bid_amount = 50;
  collateral_locked = 5;
  estimated_completion_time = 60;
  reputation_at_bid = 80;
  timestamp = 1;
}

abbrev attempt : ℕ → Attempt
attempt (suc zero) = record { top_up_error = none; answer = throws "nonce too low" }
attempt _ = record { top_up_error = none; answer = receipt (some "0xab") }

abbrev world : ℕ → World
world status = record {
  chain_job = none;
  hydration_bids = none;
  status = some (some status);
  bids = some (chain_bid ∷ []);
  bid_count = none;
  attempts = attempt;
  now_ms = 1000;
  known_count = none;
  tx_failed_taken = true;
  job_failed_taken = true;
}

held : IsHeld config [] "7" (world 3) (found_job config [] "7" (world 3) (Map.get "7" state.jobs))
unfolding Map.get
held = inl refl

run_select-IsQuiet_example :
    IsQuiet config [] "7" (world 3) (run_select config [] "7" (world 3) state)
run_select-IsQuiet_example = run_select-IsQuiet config [] "7" (world 3) state held
