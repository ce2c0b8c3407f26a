-- ===== src/Orchestrator/Examples.antt =====
-- The theorems on the orchestrator's roster, write queue and settlement, at concrete inputs.
use audit_guard.Prelude.{
  ℕ, String, ◌≡◌, refl, Bool, true, false, none, some, List, [], ◌∷◌, map, any, arith, All, keep,
  ◌===◌,
}
use audit_guard.Prelude.Map
use audit_guard.Prelude.Map.{Map}
use audit_guard.Orchestrator.Roster.{Limits, Agent, Roster, normalize_type, evaluate}
use audit_guard.Orchestrator.Eligibility.{second, qualifies, exclusions, evaluate_lem}
use audit_guard.Orchestrator.WriteQueue.{high, normal, Task, WriteQueue}
use audit_guard.Orchestrator.Fairness.{serve, is_normal, serve_normal}
use audit_guard.Orchestrator.Settlement.{Finding, Score, Config, contributor_scores}
use audit_guard.Orchestrator.Payout.{Chain, Job, settle_all, winner_set}
use audit_guard.Orchestrator.Shares.{total_score, sum_counted, total_score-contributor_scores}
use audit_guard.Orchestrator.Payments.{IsAllowed, settle_all-IsAllowed}

abbrev limits : Limits
limits = record { liveness_expiry_ms = 1000; min_stake = 50; min_reputation = 10 }

abbrev alice : Agent
alice = record {
  agent_id = "alice";
  evm_address = some "0xAA";
  specializations = "dex" ∷ [];
  stake = some 60;
  reputation = some 20;
  endpoint = none;
  tier = "COMMODITY";
  last_seen = 5000;
}

abbrev bob : Agent
bob = record {
  agent_id = "bob";
  evm_address = some "0xbb";
  specializations = [];
  stake = some 60;
  reputation = some 20;
  endpoint = none;
  tier = "COMMODITY";
  last_seen = 1;
}

abbrev roster : Roster
roster = ("alice", alice) ∷ ("bob", bob) ∷ []

roster-IsUnique : Map.IsUnique roster
unfolding Map.has Map.get
roster-IsUnique = (refl, (refl, tt))

evaluate_lem_example :
    let e = evaluate limits 5500 (some "DEX") roster in
    (e.eligible ≡ map second (keep (qualifies limits 5500 (normalize_type (some "DEX"))) roster))
    × (e.excluded ≡ exclusions limits 5500 (normalize_type (some "DEX")) roster)
evaluate_lem_example = evaluate_lem limits 5500 (some "DEX") roster

abbrev vote : Task ℕ
vote = record { send = 1; priority = normal }

abbrev select : Task ℕ
select = record { send = 2; priority = high }

abbrev writes : WriteQueue ℕ
writes = record { fast = true; max_high_streak = 2; tasks = select ∷ vote ∷ []; streak = 1 }

serve_normal_example : any is_normal (serve ((select ∷ []) ∷ (select ∷ []) ∷ []) writes) ≡ true
serve_normal_example =
    serve_normal ((select ∷ []) ∷ (select ∷ []) ∷ []) writes refl (omega arith) refl (omega arith)

abbrev is_address : String → Bool
is_address a = a === "0xAA"

abbrev finding : Finding
finding = record {
  agent_id = "alice";
  evm_address = none;
  findings_count = some 3;
  critical_count = some 1;
}

abbrev job : Job
job = record { findings = finding ∷ []; winners = "0xAA" ∷ []; settled = false }

abbrev config : Config
config = record { total_pool = 100; bonus_per_critical = 5 }

abbrev chain : Chain
chain = record {
  is_job_settled = none;
  preview = λ ps agent. some 105;
  guard_balance = some 200;
  top_up_ok = true;
  allowance_ok = true;
  deposit_ok = true;
  settle_ok = true;
}

abbrev scores : List Score
scores =
    record { recipient = "0xAA"; agent_id = "alice"; score = 5; critical = 1 }
    ∷ record { recipient = "0xbb"; agent_id = "bob"; score = 2; critical = 0 }
    ∷ []

total_score-contributor_scores_example :
    total_score (contributor_scores is_address roster ("0xaa" ∷ []) (finding ∷ finding ∷ []))
    ≡ sum_counted is_address roster ("0xaa" ∷ []) (finding ∷ finding ∷ [])
total_score-contributor_scores_example =
    total_score-contributor_scores is_address roster ("0xaa" ∷ []) (finding ∷ finding ∷ [])

settle_all-IsAllowed_example :
    All
      (IsAllowed is_address config chain (winner_set job))
      (settle_all is_address config "0xAA" roster chain job none).calls
settle_all-IsAllowed_example = settle_all-IsAllowed is_address config "0xAA" roster chain job none

abbrev earned : Score
earned = record { recipient = "0xAA"; agent_id = "alice"; score = 5; critical = 1 }
