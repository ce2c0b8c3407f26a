-- ===== src/Orchestrator/ActiveStatus/Examples.antt =====
-- A filter over an agent that the chain calls active and one whose check times out.
use audit_guard.Prelude.Map
use audit_guard.Orchestrator.Errors.{is_transient_rpc}
use audit_guard.Orchestrator.Address.{normalize_address}
use audit_guard.Prelude.{
  lower, ℕ, ◌≡◌, refl, String, Bool, true, false, Option, none, some, [], ◌∷◌, ◌===◌, ◌||◌,
}
use audit_guard.Orchestrator.ActiveStatus.{
  Config, Answer, is_active, throws, World, Agent, filter_eligible,
}
use audit_guard.Orchestrator.ActiveStatus.Evidence.{IsSorted, filter_eligible-IsSorted}

abbrev config : Config
config = record {
  cache_ttl_ms = 15000;
  stale_fallback_ttl_ms = 60000;
  retries = 2;
  fail_open = false;
  filter_enabled = true;
}

abbrev is_address : String → Bool
is_address s = s === "0xa" || s === "0xb"

abbrev agent : String → Agent
agent address = record { agent_id = some address; evm_address = some address }

-- The chain knows "0xa".
abbrev answers : Bool → ℕ → Answer
answers true n = is_active true
answers false n = throws "timeout"

abbrev is_known : Option String → Bool
is_known none = false
is_known (some s) = s === "0xa"

abbrev world : Agent → World
world a = record { has_check = true; answers = answers (is_known a.evm_address); now_ms = 9000 }

abbrev Vouched : String → Type 0
Vouched key = key ≡ "0xa"

one_left :
    (filter_eligible is_address config world (agent "0xa" ∷ agent "0xb" ∷ []) []).eligible
    ≡ agent "0xa" ∷ []
unfolding filter_eligible normalize_address Map.get Map.set lower is_transient_rpc
one_left = refl

not_answered : (n : ℕ) → answers false n ≡ is_active true → Vouched "0xb"
not_answered n e = cc

filter_eligible-IsSorted_example :
    IsSorted Vouched config refl is_address world 2
      (filter_eligible is_address config world (agent "0xa" ∷ agent "0xb" ∷ []) [])
unfolding lower normalize_address
filter_eligible-IsSorted_example =
    filter_eligible-IsSorted Vouched config refl is_address world (agent "0xa" ∷ agent "0xb" ∷ [])
      [] refl ((refl, λ n e. refl), ((refl, not_answered), tt)) tt
