-- ===== src/Orchestrator/Discovery.antt =====
-- The gate of `handleDiscovery` of orchestrator/src/orchestrator.js: `hasOpenJobForContract`,
-- `shouldDedupeDiscovery`, `markDiscoverySeen`, `validateDiscoveryPayload` and the test of the risk.
-- `ethers.isAddress` is a parameter. Times are in milliseconds, deadlines in whole seconds.
use audit_guard.Prelude.{
  ℕ, ◌-◌, ◌/◌, String, Bool, true, false, Option, none, some, List, [], ◌∷◌, lower, ltb, leb, ◌===◌,
  ◌==◌, ◌&&◌, ◌||◌, not, if◌then◌else◌, ◌or_else◌, is_empty,
}
use audit_guard.Prelude.Map
use audit_guard.Prelude.Map.{Map}
use audit_guard.Orchestrator.Address.{normalize_address}
pub mod Once
pub mod Admitted
mod Examples

-- The fields of a tracked job that the gate reads.
pub record Job : Type 0 where
  pub contract_address : Option String
  pub report_published : Bool
  pub cancelled_on_chain : Bool
  pub terminal_on_chain : Bool
  pub rehydrated_for_selection : Bool
  pub bidders : ℕ
  pub hcs_bid_count : ℕ
  pub auction_deadline_sec : ℕ

-- What `Number` makes of a field of the payload: no finite number, one below 0, one that is not whole
-- and whose floor is given, or a whole one.
pub data Parsed : Type 0 where
  not_finite below_zero : Parsed
  fraction whole : ℕ → Parsed

pub record Payload : Type 0 where
  pub contract_address : Option String
  pub budget : Parsed
  pub risk_score : Parsed
  pub estimated_loc : Parsed

pub record Config : Type 0 where
  pub dedupe_enabled : Bool
  pub dedupe_ttl_ms : ℕ
  pub min_risk : ℕ

-- A rehydrated job past its deadline and without a bid does not count.
unfoldable pub is_stale : ℕ → Job → Bool
is_stale now_ms job =
    job.rehydrated_for_selection
    && (ltb 0 job.auction_deadline_sec && leb job.auction_deadline_sec (now_ms / 1000))
    && job.bidders == 0
    && job.hcs_bid_count == 0

unfoldable pub is_above_zero : Parsed → Bool
is_above_zero not_finite = false
is_above_zero below_zero = false
is_above_zero (fraction n) = true
is_above_zero (whole n) = ltb 0 n

unfoldable pub is_score : Parsed → Bool
is_score (whole n) = leb n 100
is_score _ = false

unfoldable pub is_at_least_zero : Parsed → Bool
is_at_least_zero not_finite = false
is_at_least_zero below_zero = false
is_at_least_zero _ = true

-- `Number(riskScore ?? 0) < minRisk`
unfoldable pub is_below : ℕ → Parsed → Bool
is_below min not_finite = false
is_below min below_zero = true
is_below min (fraction n) = ltb n min
is_below min (whole n) = ltb n min

-- The error of `validateDiscoveryPayload`, by the field.
pub data Invalid : Type 0 where
  bad_address bad_budget bad_risk bad_loc : Invalid

pub data Admission : Type 0 where
  deduped skipped admitted : Admission
  rejected : Invalid → Admission

module _ (is_address : String → Bool) where
  -- `this.normalizeAddress(a).toLowerCase()`
  unfoldable pub key_of : Option String → String
  key_of address = lower (normalize_address is_address address)

  unfoldable pub counts : ℕ → String → Job → Bool
  unfolding key_of is_stale
  counts now_ms key job =
      let address = key_of job.contract_address in
      not (is_empty address || not (address === key))
      && not job.report_published
      && not job.cancelled_on_chain
      && not job.terminal_on_chain
      && not (is_stale now_ms job)

  unfoldable pub has_counting : ℕ → String → List Job → Bool
  unfolding counts
  has_counting now_ms key [] = false
  has_counting now_ms key (job ∷ jobs) = counts now_ms key job || has_counting now_ms key jobs

  unfoldable pub has_open_job : ℕ → Option String → List Job → Bool
  unfolding key_of has_counting
  has_open_job now_ms address jobs =
      let key = key_of address in not (is_empty key) && has_counting now_ms key jobs

  unfoldable pub within_ttl : ℕ → ℕ → ℕ → Bool
  within_ttl ttl now_ms seen_at = ltb 0 seen_at && leb (now_ms - seen_at) ttl

  -- Whether the discovery is a repeat, and `recentDiscovery` afterwards.
  unfoldable pub should_dedupe : Config → ℕ → List Job → Option String → Map ℕ → Bool × Map ℕ
  unfolding key_of within_ttl has_open_job
  should_dedupe config now_ms jobs address recent =
      let key = key_of address in
      if not config.dedupe_enabled || is_empty key
      then (false, recent)
      else if within_ttl config.dedupe_ttl_ms now_ms (Map.get key recent or_else 0)
          || has_open_job now_ms (some key) jobs
      then (true, Map.set key now_ms recent)
      else (false, recent)

  unfoldable pub mark_seen : ℕ → Option String → Map ℕ → Map ℕ
  unfolding key_of
  mark_seen now_ms address recent =
      if is_empty (key_of address) then recent else Map.set (key_of address) now_ms recent

  unfoldable pub is_given : Option String → Bool
  is_given none = false
  is_given (some a) = is_address a

  unfoldable pub validate : Payload → Option Invalid
  unfolding is_given is_above_zero is_score is_at_least_zero
  validate p =
      if not (is_given p.contract_address)
      then some bad_address
      else if not (is_above_zero p.budget)
      then some bad_budget
      else if not (is_score p.risk_score)
      then some bad_risk
      else if not (is_at_least_zero p.estimated_loc)
      then some bad_loc
      else none

  unfoldable pub after_validation :
      Config → ℕ → Payload → Map ℕ → Option Invalid → Admission × Map ℕ
  unfolding is_below mark_seen
  after_validation config now_ms p recent (some e) = (rejected e, recent)
  after_validation config now_ms p recent none =
      if ltb 0 config.min_risk && is_below config.min_risk p.risk_score
      then (skipped, recent)
      else (admitted, mark_seen now_ms p.contract_address recent)

  unfoldable pub after_dedupe : Config → ℕ → Payload → Bool × Map ℕ → Admission × Map ℕ
  unfolding after_validation validate
  after_dedupe config now_ms p (true, recent) = (deduped, recent)
  after_dedupe config now_ms p (false, recent) =
      after_validation config now_ms p recent (validate p)

  -- `handleDiscovery` up to the creation of the job.
  unfoldable pub admit : Config → ℕ → List Job → Payload → Map ℕ → Admission × Map ℕ
  unfolding should_dedupe after_dedupe
  admit config now_ms jobs p recent =
      after_dedupe config now_ms p (should_dedupe config now_ms jobs p.contract_address recent)
