-- ===== src/Orchestrator/ActiveStatus.antt =====
-- `getCachedOnchainActiveStatus` and `filterEligibleAgentsOnChain` of
-- orchestrator/src/orchestrator.js. `ethers.isAddress`, the clock and the chain's answers, by the
-- number of the call, are arguments.
use audit_guard.Prelude.{
  ℕ, zero, suc, ◌+◌, ◌-◌, String, Bool, true, false, Option, none, some, List, [], ◌∷◌, ◌++◌, lower,
  leb, ◌==◌, ◌||◌, not, if◌then◌else◌, is_empty, max,
}
use Prim.Native.String.{◌++◌ as append}
use audit_guard.Prelude.Map
use audit_guard.Prelude.Map.{Map}
use audit_guard.Orchestrator.Address.{normalize_address}
use audit_guard.Orchestrator.Errors.{is_transient_rpc}
pub mod Evidence
mod Examples

pub record Config : Type 0 where
  pub cache_ttl_ms : ℕ
  pub stale_fallback_ttl_ms : ℕ
  pub retries : ℕ
  pub fail_open : Bool
  pub filter_enabled : Bool

pub record Cached : Type 0 where
  pub active : Bool
  pub checked_at : ℕ

abbrev pub Cache : Type 0
Cache = Map Cached

-- `isActiveAgent` gives a Boolean or throws.
pub data Answer : Type 0 where
  is_active : Bool → Answer
  throws : String → Answer

pub record Status : Type 0 where
  pub active : Bool
  pub unavailable : Bool
  pub reason : Option String

-- What a check meets: whether the client has `isActiveAgent`, the answers by attempt, and the clock.
pub record World : Type 0 where
  pub has_check : Bool
  pub answers : ℕ → Answer
  pub now_ms : ℕ

-- The end of the loop: an answer, or the last error.
unfoldable pub on_answer : ℕ → ℕ → Answer → Answer → Answer
on_answer most attempt next (is_active b) = is_active b
on_answer most attempt next (throws e) =
    if not (is_transient_rpc e) || attempt == most then throws e else next

unfoldable pub ask : (ℕ → Answer) → ℕ → ℕ → ℕ → Answer
unfolding on_answer
ask answers most zero attempt = throws ""
ask answers most (suc left) attempt =
    on_answer most attempt (ask answers most left (attempt + 1)) (answers attempt)

unfoldable pub is_fresh : ℕ → ℕ → Option Cached → Bool
is_fresh ttl now_ms none = false
is_fresh ttl now_ms (some c) = leb (now_ms - c.checked_at) ttl

unfoldable pub cached_status : Bool → Option String → Option Cached → Status
cached_status unavailable reason none = record {
  active = false;
  unavailable = unavailable;
  reason = reason;
}
cached_status unavailable reason (some c) = record {
  active = c.active;
  unavailable = unavailable;
  reason = reason;
}

-- No answer: an old entry of the cache, if it is not too old, else the setting.
unfoldable pub fall_back : Config → ℕ → Option Cached → String → Status
unfolding is_fresh cached_status
fall_back config now_ms cached e =
    if is_fresh config.stale_fallback_ttl_ms now_ms cached
    then cached_status true (some (append "stale_cache_fallback:" e)) cached
    else record { active = config.fail_open; unavailable = true; reason = some e }

unfoldable pub conclude : Config → ℕ → String → Option Cached → Cache → Answer → Status × Cache
unfolding fall_back
conclude config now_ms key cached cache (is_active b) = (
  record { active = b; unavailable = false; reason = none },
  Map.set key (record { active = b; checked_at = now_ms }) cache,
)
conclude config now_ms key cached cache (throws e) = (fall_back config now_ms cached e, cache)

unfoldable pub check : Config → World → String → Cache → Status × Cache
unfolding is_fresh cached_status ask conclude
check config w key cache =
    let cached = Map.get key cache in
    if is_fresh config.cache_ttl_ms w.now_ms cached
    then (cached_status false none cached, cache)
    else if not w.has_check
    then (record { active = true; unavailable = false; reason = none }, cache)
    else let most = max 1 config.retries in
      conclude config w.now_ms key cached cache (ask w.answers most most 1)

unfoldable pub status_of : (String → Bool) → Config → World → Option String → Cache → Status × Cache
unfolding check
status_of is_address config w evm_address cache =
    let address = normalize_address is_address evm_address in
    if is_empty address
    then (record { active = false; unavailable = false; reason = some "invalid_address" }, cache)
    else check config w (lower address) cache

-- The fields of an agent that the filter reads.
pub record Agent : Type 0 where
  pub agent_id : Option String
  pub evm_address : Option String

pub data Reason : Type 0 where
  missing_evm_address active_check_unavailable inactive_onchain : Reason

pub record Sorted : Type 0 where
  pub eligible : List Agent
  pub excluded : List (Agent × Reason)
  pub cache : Cache

unfoldable pub sort_agent : Agent → Status → Sorted → Sorted
sort_agent a s r = if s.active then record r { eligible = r.eligible ++ a ∷ [] } else record r {
  excluded =
      r.excluded ++ (a, if s.unavailable then active_check_unavailable else inactive_onchain) ∷ [];
}

-- One turn of the loop; `world` is what the check of an agent meets.
unfoldable pub filter_agent : (String → Bool) → Config → (Agent → World) → Sorted → Agent → Sorted
unfolding status_of sort_agent
filter_agent is_address config world r a =
    if is_empty (normalize_address is_address a.evm_address)
    then record r { excluded = r.excluded ++ (a, missing_evm_address) ∷ [] }
    else let (s, cache) = status_of is_address config (world a) a.evm_address r.cache in
      sort_agent a s (record r { cache = cache })

unfoldable pub filter_all :
    (String → Bool) → Config → (Agent → World) → List Agent → Sorted → Sorted
unfolding filter_agent
filter_all is_address config world [] r = r
filter_all is_address config world (a ∷ agents) r =
    filter_all is_address config world agents (filter_agent is_address config world r a)

unfoldable pub filter_eligible :
    (String → Bool) → Config → (Agent → World) → List Agent → Cache → Sorted
unfolding filter_all
filter_eligible is_address config world agents cache =
    if config.filter_enabled
    then filter_all is_address config world agents
        (record { eligible = []; excluded = []; cache = cache })
    else record { eligible = agents; excluded = []; cache = cache }
