-- ===== src/Orchestrator/Discovery/Examples.antt =====
-- Discoveries of one contract, written in upper and lower case.
use audit_guard.Prelude.Map
use audit_guard.Orchestrator.Address.{normalize_address}
use audit_guard.Prelude.{
  ℕ, ◌≡◌, refl, String, Bool, true, false, some, [], ◌∷◌, arith, lower, ◌===◌, lower-lower,
}
use audit_guard.Prelude.Map.{Map}
use audit_guard.Orchestrator.Discovery.{
  Job, Payload, whole, Config, admitted, deduped, key_of, admit,
}
use audit_guard.Orchestrator.Discovery.Once.{Arrival, admit_one, admit_all, admit-admit_all}
use audit_guard.Orchestrator.Discovery.Admitted.{TakesLower}

abbrev is_address : String → Bool
is_address s = lower s === "0xab"

abbrev config : Config
config = record { dedupe_enabled = true; dedupe_ttl_ms = 120000; min_risk = 10 }

abbrev payload : String → Payload
payload address = record {
  contract_address = some address;
  budget = whole 100;
  risk_score = whole 60;
  estimated_loc = whole 500;
}

abbrev arrival : ℕ → String → Arrival
arrival at address = record { at = at; jobs = []; payload = payload address }

takes_lower : TakesLower is_address config 0 [] (payload "0xab") []
takes_lower s h = rw (lower-lower s) h

first_admitted : (admit_one is_address config (arrival 1000 "0xAB") []).0 ≡ admitted
unfolding admit lower normalize_address Map.get
first_admitted = refl

admit-admit_all_example :
    (admit_one is_address config (arrival 110000 "0xab") (
      admit_all is_address config
        (arrival 50000 "0xAb" ∷ [])
        (admit_one is_address config (arrival 1000 "0xAB") []).1)).0
    ≡ deduped
unfolding key_of lower normalize_address
admit-admit_all_example =
    admit-admit_all is_address config (arrival 1000 "0xAB") (arrival 110000 "0xab")
      (arrival 50000 "0xAb" ∷ []) [] refl refl refl (omega arith) (omega arith, tt)
      (omega arith, tt) (omega arith) (omega arith) first_admitted

-- A job of the contract that is published.
abbrev done : Job
done = record {
  contract_address = some "0xAB";
  report_published = true;
  cancelled_on_chain = false;
  terminal_on_chain = false;
  rehydrated_for_selection = false;
  bidders = 2;
  hcs_bid_count = 2;
  auction_deadline_sec = 5;
}

admitted_now : (admit is_address config 9000 (done ∷ []) (payload "0xAB") []).0 ≡ admitted
unfolding admit lower normalize_address Map.get
admitted_now = refl
