-- ===== src/Orchestrator/AuctionExamples.antt =====
-- The theorems on the orchestrator's bids, winners, timers and top-ups, at concrete inputs.
use mathlib.Core.List.{foldl}
use audit_guard.Prelude.{
  any, ℕ, String, ◌≡◌, ◌≤◌, refl, Bool, true, false, Option, none, some, List, [], ◌∷◌, arith, All,
  ◌+◌, ◌*◌, ◌===◌, lower, max, min,
}
use audit_guard.Prelude.Map
use audit_guard.Prelude.Map.{Map}
use audit_guard.Orchestrator.Bids.{Job, Message}
use audit_guard.Orchestrator.Roster.{Roster}
use audit_guard.Orchestrator.BidBook.{IsSoundJob, arrive, handle_bids-IsSound}
use audit_guard.Orchestrator.Winners.{
  Extras, normalize_winner_addresses, publish_winner_selected, announce, announcement, is_repeat,
  prune_cache, add_winner,
}
use audit_guard.Orchestrator.Address.{normalize_address}
use audit_guard.Orchestrator.Announced.{Call, publish_all, publish_twice}
use audit_guard.Orchestrator.Fingerprint.{swap}
use audit_guard.Orchestrator.Readiness
use audit_guard.Orchestrator.Readiness.{
  Timing, Timer, State, Hint, Answers, evaluate, resolve_priority, schedule, high, normal,
}
use audit_guard.Orchestrator.Selected.{knows}
use audit_guard.Orchestrator.Fired.{fire_timer-schedule}
use audit_guard.Orchestrator.Selection.{fire_timer}
use audit_guard.Orchestrator.Requested.{is_select}
use audit_guard.Orchestrator.Donors.{Transfer, Limits, collect, ensure_operational, target_of}
use audit_guard.Orchestrator.Reserves.{total, KeepsReserve, ensure_operational-IsModest}
use audit_guard.Orchestrator.Filled.{capacity, collect-Fills}

abbrev is_address : String → Bool
is_address a = a === "0xAA"

abbrev open_job : Job
open_job = record {
  contract_address = some "0xC1";
  cancelled_on_chain = false;
  terminal_on_chain = false;
  report_published = false;
  bidders = [];
  hcs_bid_count = 0;
}

abbrev jobs : Map Job
jobs = ("7", open_job) ∷ []

abbrev bid_of : String → Message
bid_of agent = record {
  agent_id = agent;
  timestamp = none;
  job_id = "7";
  contract_address = some "0xc1";
  bid_amount = some 4;
  collateral = none;
  estimated_time_sec = none;
  reputation = none;
  evm_address = some "0xAA";
}

abbrev arrivals : List (ℕ × Roster × Message)
arrivals = (9, [], bid_of "a") ∷ (10, [], bid_of "b") ∷ (11, [], bid_of "a") ∷ []

handle_bids-IsSound_example :
    Map.AllEntries (IsSoundJob is_address) (foldl (arrive is_address 50) jobs arrivals)
handle_bids-IsSound_example = handle_bids-IsSound is_address 50 arrivals jobs ((tt, refl), tt)

abbrev extras : Extras
extras = record { tx_hash = some "0xF"; total_escrowed = some 8; platform_fee = none }

abbrev later_extras : Extras
later_extras = record { tx_hash = none; total_escrowed = none; platform_fee = none }

abbrev any_address : String → Bool
any_address a = true

abbrev other_job : Call
other_job = record { at = 20; job = "8"; extras = later_extras; winners = some "0xcc" ∷ [] }

publish_twice_example :
    (publish_winner_selected any_address 100 60
      (publish_all any_address 100
        (other_job ∷ [])
        (publish_winner_selected any_address 100 5 [] "7" extras
          (some "0xAA" ∷ some "0xbb" ∷ [])).0)
      "7"
      later_extras
      (some "0xbb" ∷ some "0xaa" ∷ [])).1
    ≡ none
unfolding publish_winner_selected normalize_winner_addresses add_winner normalize_address announce
    is_repeat Map.get prune_cache lower
publish_twice_example =
    publish_twice any_address 100 5 60 [] "7" extras later_extras (some "0xAA" ∷ some "0xbb" ∷ [])
      (some "0xbb" ∷ some "0xaa" ∷ []) (announcement "7" ("0xAA" ∷ "0xbb" ∷ []) extras)
      (other_job ∷ []) refl (swap "0xaa" "0xbb" []) (omega arith) (refl, omega arith, tt)

abbrev tracked : Readiness.Job
tracked = record {
  auction_deadline_sec = none;
  bid_finality_grace_ms = none;
  winner_selection_scheduled_at = none;
}

abbrev state : State
state = record { jobs = ("7", tracked) ∷ []; timers = [] }

abbrev timing : Timing
timing = record { grace_ms = 250; winner_wait_ms = 120000 }

abbrev chain_job : Readiness.ChainJob
chain_job = record { status = some 0; auction_deadline = some 8 }

fire_timer-schedule_example :
    (t : Timer) × (Map.get "7" (schedule timing 1000 "7" (some 8) "timer" state).timers ≡ some t)
    × (8 * 1000 + 250 ≤ t.fires_at)
    × (any is_select
          (fire_timer true timing t.fires_at "7"
            (knows (some chain_job) 2)
            (schedule timing 1000 "7" (some 8) "timer" state)).1
        ≡ true)
unfolding Map.get
fire_timer-schedule_example =
    fire_timer-schedule true timing 1000 8 2 "7" "timer" tracked (some chain_job) state
      (omega arith) (omega arith) (omega arith) (omega arith, omega arith) refl

abbrev balance_of : String → Option ℕ
balance_of d = some 30

abbrev goes_through : Transfer → Bool
goes_through t = true

abbrev balance_after : List Transfer → Option ℕ
balance_after ts = some (5 + total ts)

abbrev limits : Limits
limits = record {
  min_wei = 10;
  target_wei = 40;
  donor_reserve_wei = 8;
  check_interval_ms = 100;
  auto_topup = true;
}

ensure_operational-IsModest_example :
    All
      (KeepsReserve balance_of goes_through 8)
      (ensure_operational balance_of goes_through balance_after limits
        ("0x1" ∷ "0x2" ∷ [])
        0
        50
        true).sent
    × (5
          + total
              (ensure_operational balance_of goes_through balance_after limits
                ("0x1" ∷ "0x2" ∷ [])
                0
                50
                true).sent
        ≤ max (target_of limits) 5)
ensure_operational-IsModest_example =
    ensure_operational-IsModest balance_of goes_through balance_after limits ("0x1" ∷ "0x2" ∷ []) 0
      50 true 5 refl

collect-Fills_example :
    (total (collect balance_of goes_through 8 ("0x1" ∷ "0x2" ∷ []) 35).sent
      ≡ min 35 (capacity balance_of 8 ("0x1" ∷ "0x2" ∷ [])))
    × ((collect balance_of goes_through 8 ("0x1" ∷ "0x2" ∷ []) 35).failed ≡ false)
collect-Fills_example =
    collect-Fills balance_of goes_through 8 (λ d. (30, refl)) (λ t. refl) ("0x1" ∷ "0x2" ∷ []) 35
