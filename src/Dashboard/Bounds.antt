-- ===== src/Dashboard/Bounds.antt =====
-- No log of the store grows past its cap.
use audit_guard.Prelude.{
  ℕ, zero, suc, ◌≤◌, String, ◌≡◌, some, List, [], ◌∷◌, arith, length, length-take-le,
  length-take_last-le, eq_iff, map,
}
use Prim.Native.Nat.{zero-le, suc-le-suc}
use native.Mathlib.Nat.{suc-le-suc_iff}
use audit_guard.Prelude.Map
use audit_guard.Prelude.Map.{Map, get-set}
use audit_guard.Dashboard.State.{State, initial}
use audit_guard.Dashboard.Feed.{
  add_log_entry, drop_duplicate, insert_event, upsert_event_cases, add_guard_flow, insert_flow,
  upsert_guard_flow_cases,
}
use audit_guard.Dashboard.Auctions.{push_status, add_job_bid_status_cases}
use audit_guard.Dashboard.Dispatch.{Action, dispatch, run, run_induction}

-- Every list of the map has at most `n` elements.
pub record EachWithin {A : Type 0} (n : ℕ) (m : Map (List A)) : Type 0 where
  pub at : (k : String) (l : List A) → Map.get k m ≡ some l → length l ≤ n

module _ {A : Type 0} where
  set-EachWithin :
      (n : ℕ) (k : String) (l : List A) (m : Map (List A))
      → length l ≤ n
      → EachWithin n m
      → EachWithin n (Map.set k l m)
  set-EachWithin n k l m short h = record {
    at = λ j l' e. ground (arith, get-set k j l m, eq_iff k j, h.at j l');
  }

  empty-EachWithin : (n : ℕ) → EachWithin {A = A} n []
  unfolding Map.get
  empty-EachWithin n = record { at = λ k l e. cc }

pub record IsBounded {P : Type 0} (s : State P) : Type 0 where
  pub discoveries : length s.discoveries ≤ 100
  pub audit_log : length s.audit_log ≤ 200
  pub guard_flows : length s.guard_flows ≤ 500
  pub data_purchases : length s.data_purchases ≤ 100
  pub slash_events : length s.slash_events ≤ 50
  pub distributions : length s.treasury_distributions ≤ 50
  pub hss_events : length s.hss_events ≤ 500
  pub job_bid_status : EachWithin 100 s.job_bid_status
  pub llm_provider : EachWithin 100 s.llm_provider_status
  pub llm_inference : EachWithin 100 s.llm_inference_status
  pub reputation : EachWithin 50 s.reputation_history
  pub stake : EachWithin 50 s.stake_history

length-map-le :
    {A B : Type 0} (f : A → B) (n : ℕ) (xs : List A) → length xs ≤ n → length (map f xs) ≤ n
length-map-le f n [] h = h
length-map-le f zero (x ∷ xs) h = elim h [ ]
length-map-le f (suc n) (x ∷ xs) h = suc-le-suc (length-map-le f n xs (suc-le-suc_iff.0 h))

ruleset bounds =
    (length-take-le, length-take_last-le, length-map-le, set-EachWithin, empty-EachWithin, zero-le)

module _ {P : Type 0} where
  dispatch-IsBounded : (a : Action P) (s : State P) → IsBounded s → IsBounded (dispatch a s)
  unfolding dispatch add_log_entry drop_duplicate insert_event add_guard_flow insert_flow
      push_status
  dispatch-IsBounded (Action.event e) s h =
      upsert_event_cases IsBounded e s (search bounds) (search bounds) (search bounds)
  dispatch-IsBounded (Action.flow e) s h =
      upsert_guard_flow_cases IsBounded e s (search bounds) (search bounds) (search bounds)
  dispatch-IsBounded (Action.bid_status k b) s h =
      add_job_bid_status_cases IsBounded k b s h (search bounds)
  dispatch-IsBounded _ s h = search bounds

  -- From a state within the caps, any sequence of the store's actions stays within them: 100
  -- discoveries and purchases, 200 log entries, 500 flows and schedule events, 50 slash events and
  -- distributions, and for each key 100 bid, provider and inference statuses and 50 snapshots.
  pub run-IsBounded :
      (actions : List (Action P)) (s : State P) → IsBounded s → IsBounded (run actions s)
  run-IsBounded = run_induction IsBounded dispatch-IsBounded

  pub initial-IsBounded : (fields : Map P) → IsBounded (initial fields)
  initial-IsBounded fields = search bounds
