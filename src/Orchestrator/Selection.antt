-- ===== src/Orchestrator/Selection.antt =====
-- `requestWinnerSelection` of orchestrator/src/orchestrator.js.
use Prim.Native.String.{◌++◌ as append}
use audit_guard.Prelude.{
  ℕ, String, Bool, Option, none, some, List, [], ◌∷◌, if◌then◌else◌, ◌or_else◌, truthy, ltb,
}
use audit_guard.Prelude.Map
use audit_guard.Prelude.Map.{Map}
use audit_guard.Orchestrator.Readiness.{
  Timer, clear_timer, Job, Timing, State, ReasonCode, ready, deadline_not_reached, no_onchain_bids,
  Priority, Hint, Answers, Readiness, evaluate, resolve_priority, schedule,
}

-- The `result` of a WINNER_SELECTION_TIMING message.
pub data TimingResult : Type 0 where
  deferred skipped : TimingResult

-- Left out are the fields that every message of a request has alike: no attempt, no transaction, no
-- error, normal priority.
pub record TimingReport : Type 0 where
  pub deadline_sec : Option ℕ
  pub grace_ms : ℕ
  pub scheduled_at : Option ℕ
  pub select_started_at : ℕ
  pub path : String
  pub result : TimingResult
  pub deadline_reached : Bool
  pub onchain_bid_count : Option ℕ
  pub suppressed_reason : ReasonCode

-- `selectWinnersOnChain`, WINNER_SELECTION_DEFERRED, `closeExpiredAuction` and the timing message.
pub data Action : Type 0 where
  select : String → Readiness → Priority → Action
  defer_selection : String → ReasonCode → Option ℕ → Option ℕ → Action
  close : String → Action
  report_timing : TimingReport → Action

unfoldable pub scheduled_at : Option Job → Option ℕ
scheduled_at none = none
scheduled_at (some j) = elim j.winner_selection_scheduled_at [
  | none ↦ none
  | some t ↦ if ltb 0 t then some t else none
]

unfoldable pub timing_report :
    Timing → ℕ → Option ℕ → String → TimingResult → Readiness → TimingReport
timing_report timing now_ms at path result r = record {
  deadline_sec = r.deadline_sec;
  grace_ms = timing.grace_ms;
  scheduled_at = at;
  select_started_at = now_ms;
  path = path;
  result = result;
  deadline_reached = r.deadline_reached;
  onchain_bid_count = r.onchain_bid_count;
  suppressed_reason = r.reason_code;
}

-- Before the deadline: the selection is scheduled for it.
unfoldable pub respond_early :
    Timing → ℕ → String → String → State → Readiness → Option ℕ → Option ℕ → State × List Action
unfolding timing_report
respond_early timing now_ms key path s r at none = (
  s,
  defer_selection path deadline_not_reached none r.onchain_bid_count
      ∷ report_timing (timing_report timing now_ms at path skipped r)
      ∷ [],
)
respond_early timing now_ms key path s r at (some d) = (
  schedule timing now_ms key (some d) "timer" s,
  defer_selection path deadline_not_reached (some d) r.onchain_bid_count
      ∷ report_timing (timing_report timing now_ms at path deferred r)
      ∷ [],
)

-- The clock stands still within one request.
unfoldable pub respond :
    Bool
    → Timing
    → ℕ
    → String
    → String
    → State
    → Readiness
    → ReasonCode
    → Option ℕ
    → State × List Action
unfolding timing_report respond_early
respond fast timing now_ms key path s r ready at = (s, select path r (resolve_priority fast r) ∷ [])
respond fast timing now_ms key path s r deadline_not_reached at =
    respond_early timing now_ms key path s r at r.deadline_sec
respond fast timing now_ms key path s r no_onchain_bids at = (
  s,
  defer_selection path no_onchain_bids r.deadline_sec r.onchain_bid_count
      ∷ close (append path "_no_bids_before_deadline")
      ∷ report_timing (timing_report timing now_ms at path skipped r)
      ∷ [],
)
respond fast timing now_ms key path s r reason at = (
  s,
  defer_selection path reason r.deadline_sec r.onchain_bid_count
      ∷ report_timing (timing_report timing now_ms at path skipped r)
      ∷ [],
)

unfoldable pub request_winner_selection :
    Bool → Timing → ℕ → String → Option String → Hint → Answers → State → State × List Action
unfolding respond scheduled_at
request_winner_selection fast timing now_ms key source hint answers s =
    let r = evaluate now_ms (Map.get key s.jobs) hint answers in
    respond fast timing now_ms key (truthy source or_else "manual") s r r.reason_code
      (scheduled_at (Map.get key s.jobs))

-- The evaluation's options where the caller gives none.
abbrev pub no_hint : Hint
no_hint = record {
  chain_job = none;
  chain_status = none;
  deadline_sec = none;
  onchain_bid_count = none;
}

unfoldable pub fire :
    Bool → Timing → ℕ → String → Answers → State → Option Timer → State × List Action
unfolding request_winner_selection clear_timer
fire fast timing now_ms key answers s none = (s, [])
fire fast timing now_ms key answers s (some t) =
    request_winner_selection fast timing now_ms key (some t.trigger_path) no_hint answers
      (clear_timer key s)

-- What `setTimeout` runs: the timer is forgotten, and winners are requested.
unfoldable pub fire_timer : Bool → Timing → ℕ → String → Answers → State → State × List Action
unfolding fire
fire_timer fast timing now_ms key answers s =
    fire fast timing now_ms key answers s (Map.get key s.timers)
