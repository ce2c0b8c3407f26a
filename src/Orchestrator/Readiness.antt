-- ===== src/Orchestrator/Readiness.antt =====
-- When winners are selected (orchestrator/src/orchestrator.js: `clearWinnerSelectionTimer`,
-- `scheduleWinnerSelection`, `resolveWinnerSelectionPriority`, `publishWinnerSelectionDeferred`,
-- `evaluateWinnerSelectionReadiness`, `requestWinnerSelection`). Deadlines are in whole seconds, the
-- clock and delays in milliseconds. What the code sends or starts is a list, in order.
use audit_guard.Prelude.{
  ℕ, ◌+◌, ◌-◌, ◌*◌, ◌/◌, String, Bool, true, false, Option, none, some, List, [], ◌∷◌, ltb, leb,
  ◌==◌, ◌||◌, not, if◌then◌else◌, ◌or_else◌, is_some, max,
}
use audit_guard.Prelude.Map
use audit_guard.Prelude.Map.{Map}

-- The fields of a tracked job that the handlers use.
pub record Job : Type 0 where
  pub auction_deadline_sec : Option ℕ
  pub bid_finality_grace_ms : Option ℕ
  pub winner_selection_scheduled_at : Option ℕ

pub record ChainJob : Type 0 where
  pub status : Option ℕ
  pub auction_deadline : Option ℕ

pub record Timing : Type 0 where
  pub grace_ms : ℕ
  pub winner_wait_ms : ℕ

-- A timer: when it fires, and the path it then gives.
pub record Timer : Type 0 where
  pub fires_at : ℕ
  pub trigger_path : String

pub record State : Type 0 where
  pub jobs : Map Job
  pub timers : Map Timer

pub data ReasonCode : Type 0 where
  ready not_found terminal_status deadline_not_reached no_onchain_bids : ReasonCode

pub data Priority : Type 0 where
  normal high : Priority

-- `options` of the evaluation. A bid count may be absent, null or a number.
pub record Hint : Type 0 where
  pub chain_job : Option ChainJob
  pub chain_status : Option ℕ
  pub deadline_sec : Option ℕ
  pub onchain_bid_count : Option (Option ℕ)

-- What the chain answers: `none` where a call throws or gives nothing.
pub record Answers : Type 0 where
  pub chain_job : Option ChainJob
  pub onchain_bid_count : Option ℕ

pub record Readiness : Type 0 where
  pub job_exists : Bool
  pub chain_status : ℕ
  pub deadline_sec : Option ℕ
  pub deadline_reached : Bool
  pub onchain_bid_count : Option ℕ
  pub has_bids : Bool
  pub can_select : Bool
  pub should_cancel_no_bids : Bool
  pub reason_code : ReasonCode

unfoldable pub first_job : Option ChainJob → Option ChainJob → Option ChainJob
first_job none b = b
first_job (some a) b = some a

unfoldable pub deadline_of : Option ChainJob → Option ℕ
deadline_of none = none
deadline_of (some j) = j.auction_deadline

unfoldable pub local_deadline : Option Job → Option ℕ
local_deadline none = none
local_deadline (some j) = j.auction_deadline_sec

-- The first candidate above 0.
unfoldable pub pick_deadline : List (Option ℕ) → Option ℕ
pick_deadline [] = none
pick_deadline (none ∷ cs) = pick_deadline cs
pick_deadline (some n ∷ cs) = let rest = pick_deadline cs in if ltb 0 n then some n else rest

unfoldable pub is_reached : ℕ → Option ℕ → Bool
is_reached now_ms none = false
is_reached now_ms (some d) = leb d (now_ms / 1000)

-- `Number(null)` is 0, so a null count is 0.
unfoldable pub bid_count : Option (Option ℕ) → Option ℕ → Option ℕ
bid_count none fetched = fetched
bid_count (some hint) fetched = some (hint or_else 0)

unfoldable pub reason_of : Bool → Bool → Bool → Bool → ReasonCode
reason_of job_exists terminal reached has_bids =
    if not job_exists
    then not_found
    else if terminal
    then terminal_status
    else if not reached
    then deadline_not_reached
    else if not has_bids
    then no_onchain_bids
    else ready

unfoldable pub is_ready : ReasonCode → Bool
is_ready ready = true
is_ready _ = false

unfoldable pub is_no_bids : ReasonCode → Bool
is_no_bids no_onchain_bids = true
is_no_bids _ = false

-- A missing status is null, which reads as the number 0.
unfoldable pub chain_status_of : Hint → Option ChainJob → ℕ
chain_status_of hint none = hint.chain_status or_else 0
chain_status_of hint (some j) = hint.chain_status or_else (j.status or_else 0)

unfoldable pub evaluate : ℕ → Option Job → Hint → Answers → Readiness
unfolding first_job deadline_of local_deadline pick_deadline is_reached bid_count reason_of is_ready
    is_no_bids chain_status_of
evaluate now_ms local_job hint answers =
    let chain_job = first_job hint.chain_job answers.chain_job in
    let status = chain_status_of hint chain_job in
    let deadline =
      pick_deadline (hint.deadline_sec ∷ deadline_of chain_job ∷ local_deadline local_job ∷ []) in
    let bids = bid_count hint.onchain_bid_count answers.onchain_bid_count in
    let reached = is_reached now_ms deadline in
    let has_bids = ltb 0 (bids or_else 0) in
    let job_exists = is_some local_job || is_some chain_job in
    let reason = reason_of job_exists (ltb 1 status) reached has_bids in
    record {
      job_exists = job_exists;
      chain_status = status;
      deadline_sec = deadline;
      deadline_reached = reached;
      onchain_bid_count = bids;
      has_bids = has_bids;
      can_select = is_ready reason;
      should_cancel_no_bids = is_no_bids reason;
      reason_code = reason;
    }

unfoldable pub resolve_priority : Bool → Readiness → Priority
resolve_priority fast_path r =
    if not fast_path
    then normal
    else if not r.can_select
    then normal
    else if not r.deadline_reached
    then normal
    else if (r.onchain_bid_count or_else 0) == 0
    then normal
    else high

unfoldable pub has_deadline : Option ℕ → Bool
has_deadline none = false
has_deadline (some d) = ltb 0 d

unfoldable pub delay_ms : Timing → ℕ → Option ℕ → ℕ
unfolding has_deadline
delay_ms timing now_ms deadline =
    if has_deadline deadline
    then ((deadline or_else 0) * 1000 + timing.grace_ms) - now_ms
    else max 1 (timing.winner_wait_ms + timing.grace_ms)

-- What `setTimeout` makes of a delay: 1 where it is 0 or does not fit 31 bits.
unfoldable pub timer_ms : ℕ → ℕ
timer_ms n = if ltb 2147483647 n then 1 else max 1 n

unfoldable pub mark_scheduled : Timing → ℕ → Option ℕ → Job → Job
unfolding delay_ms has_deadline
mark_scheduled timing now_ms deadline job = record job {
  winner_selection_scheduled_at = some (now_ms + delay_ms timing now_ms deadline);
  bid_finality_grace_ms = some timing.grace_ms;
  auction_deadline_sec = if has_deadline deadline then deadline else job.auction_deadline_sec;
}

unfoldable pub update_job : Timing → ℕ → Option ℕ → String → Option Job → Map Job → Map Job
unfolding mark_scheduled
update_job timing now_ms deadline key none jobs = jobs
update_job timing now_ms deadline key (some job) jobs =
    Map.set key (mark_scheduled timing now_ms deadline job) jobs

unfoldable pub clear_timer : String → State → State
clear_timer key s = record s { timers = Map.delete key s.timers }

-- `scheduleWinnerSelection`: the old timer of the job is cleared, and a new one is started.
unfoldable pub schedule : Timing → ℕ → String → Option ℕ → String → State → State
unfolding delay_ms timer_ms update_job clear_timer
schedule timing now_ms key deadline trigger s =
    let cleared =
      clear_timer key
        (record s { jobs = update_job timing now_ms deadline key (Map.get key s.jobs) s.jobs }) in
    record cleared {
      timers =
          Map.set key
            (record {
              fires_at = now_ms + timer_ms (delay_ms timing now_ms deadline);
              trigger_path = trigger;
            })
            cleared.timers;
    }
