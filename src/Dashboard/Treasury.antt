-- ===== src/Dashboard/Treasury.antt =====
-- The treasury's total is the sum of its sources, whatever the store is told.
use audit_guard.Prelude.{ℕ, ◌+◌, ◌≡◌, List, arith, refl, ◌or_else◌}
use audit_guard.Dashboard.State.{Revenue, State}
use audit_guard.Dashboard.Agents.{Source, source_key, credit}
use audit_guard.Dashboard.Feed.{
  add_log_entry, drop_duplicate, insert_event, upsert_event_cases, add_guard_flow, insert_flow,
  upsert_guard_flow_cases,
}
use audit_guard.Dashboard.Auctions.{push_status, add_job_bid_status_cases}
use audit_guard.Dashboard.Dispatch.{
  Action, dispatch, run, run_induction, revenue, reset, event, flow, bid_status,
}

abbrev pub sources : Revenue → ℕ
sources r =
    r.audit_fees + r.marketplace_fees + r.report_fees + r.slashing_proceeds + r.sub_auction_fees

abbrev pub IsBalanced : {P : Type 0} → State P → Type 0
IsBalanced s = s.revenue.total ≡ sources s.revenue

credit-balanced :
    (k : Source) (n : ℕ) (r : Revenue)
    → r.total ≡ sources r
    → (credit k n r).total ≡ sources (credit k n r)
unfolding credit
credit-balanced Source.audit_fees n r h = omega arith
credit-balanced Source.marketplace_fees n r h = omega arith
credit-balanced Source.report_fees n r h = omega arith
credit-balanced Source.slashing_proceeds n r h = omega arith
credit-balanced Source.sub_auction_fees n r h = omega arith

module _ {P : Type 0} where
  dispatch-IsBalanced : (a : Action P) (s : State P) → IsBalanced s → IsBalanced (dispatch a s)
  unfolding dispatch add_log_entry drop_duplicate insert_event add_guard_flow insert_flow
      push_status
  dispatch-IsBalanced (revenue k n) s h = credit-balanced (source_key k) (n or_else 0) s.revenue h
  dispatch-IsBalanced (reset f) s h = refl
  dispatch-IsBalanced (event e) s h = upsert_event_cases IsBalanced e s h h h
  dispatch-IsBalanced (flow e) s h = upsert_guard_flow_cases IsBalanced e s h h h
  dispatch-IsBalanced (bid_status k b) s h = add_job_bid_status_cases IsBalanced k b s h h
  dispatch-IsBalanced _ s h = h

  -- From a balanced state, after any sequence of the store's actions, the revenue total is the sum
  -- of the five sources.
  pub run-IsBalanced :
      (actions : List (Action P)) (s : State P) → IsBalanced s → IsBalanced (run actions s)
  run-IsBalanced = run_induction IsBalanced dispatch-IsBalanced
