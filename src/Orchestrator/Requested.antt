-- ===== src/Orchestrator/Requested.antt =====
-- What a request for winners does (`requestWinnerSelection` of orchestrator/src/orchestrator.js).
use audit_guard.Prelude.{
  ℕ, String, ◌≡◌, refl, Bool, true, false, Option, none, some, any, not, truthy, ◌or_else◌,
}
use audit_guard.Prelude.Map
use audit_guard.Prelude.Map.{Map}
use audit_guard.Orchestrator.Readiness.{
  Timing, State, ReasonCode, ready, not_found, terminal_status, deadline_not_reached,
  no_onchain_bids, Hint, Answers, Readiness, evaluate, is_ready, is_no_bids,
}
use audit_guard.Orchestrator.Selection.{
  Action, select, defer_selection, close, respond, respond_early, request_winner_selection,
  scheduled_at,
}

abbrev pub is_select : Action → Bool
is_select (select p r q) = true
is_select _ = false

abbrev pub is_close : Action → Bool
is_close (close p) = true
is_close _ = false

abbrev pub is_defer : Action → Bool
is_defer (defer_selection p c d n) = true
is_defer _ = false

module _ (fast : Bool) (timing : Timing) (now_ms : ℕ) (key : String) where
  respond_lem :
      (path : String) (s : State) (r : Readiness) (reason : ReasonCode) (at : Option ℕ)
      → let actions = (respond fast timing now_ms key path s r reason at).1 in
        (any is_select actions ≡ is_ready reason)
        × (any is_close actions ≡ is_no_bids reason)
        × (any is_defer actions ≡ not (is_ready reason))
  unfolding respond is_ready is_no_bids
  respond_lem path s r ready at = (refl, refl, refl)
  respond_lem path s r not_found at = (refl, refl, refl)
  respond_lem path s r terminal_status at = (refl, refl, refl)
  respond_lem path s r no_onchain_bids at = (refl, refl, refl)
  respond_lem path s r deadline_not_reached at = early r.deadline_sec
    where
      early :
          (d : Option ℕ)
          → let actions = (respond_early timing now_ms key path s r at d).1 in
            (any is_select actions ≡ false)
            × (any is_close actions ≡ false)
            × (any is_defer actions ≡ true)
      early none = unfold respond_early in (refl, refl, refl)
      early (some d) = unfold respond_early in (refl, refl, refl)

  -- A request selects winners just if its evaluation says that they can be selected, closes the auction
  -- just if the deadline is over without bids, and else, and only then, tells that it defers.
  pub request_winner_selection_lem :
      (source : Option String) (hint : Hint) (answers : Answers) (s : State)
      → let r = evaluate now_ms (Map.get key s.jobs) hint answers in
        let actions = (request_winner_selection fast timing now_ms key source hint answers s).1 in
        (any is_select actions ≡ r.can_select)
        × (any is_close actions ≡ r.should_cancel_no_bids)
        × (any is_defer actions ≡ not r.can_select)
  unfolding request_winner_selection evaluate
  request_winner_selection_lem source hint answers s =
      let r = evaluate now_ms (Map.get key s.jobs) hint answers in
      respond_lem (truthy source or_else "manual") s r r.reason_code
        (scheduled_at (Map.get key s.jobs))
