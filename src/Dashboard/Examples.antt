-- ===== src/Dashboard/Examples.antt =====
-- The theorems on the dashboard's store, at concrete states.
use audit_guard.Prelude.{ℕ, refl, none, some, List, [], ◌∷◌}
use audit_guard.Dashboard.State.{Entry, Terminal, BidStatus, State, initial}
use audit_guard.Dashboard.Dispatch.{Action, run}
use audit_guard.Dashboard.Treasury.{IsBalanced, run-IsBalanced}
use audit_guard.Dashboard.Bounds.{IsBounded, run-IsBounded, initial-IsBounded}
use audit_guard.Dashboard.Dedup.{IsIndexed, upsert_events, upsert_events-IsIndexed}

abbrev start : State ℕ
start = initial []

abbrev two_events : List (Entry ℕ)
two_events =
    record { id = some "e1"; body = 1 }
    ∷ record { id = some "e1"; body = 2 }
    ∷ record { id = none; body = 3 }
    ∷ []

abbrev first_event : Entry ℕ
first_event = record { id = some "e1"; body = 1 }

abbrev won : BidStatus ℕ
won = record { event_id = some "e9"; status = some "won"; agent_id = some "a1"; body = 0 }

abbrev settled : Terminal
settled = record { status = some "SETTLED"; ended_at = some 9; tx_hash = none }

abbrev actions : List (Action ℕ)
actions =
    Action.event first_event
    ∷ Action.revenue 7 (some 3)
    ∷ Action.bid_status "j1" won
    ∷ Action.reset []
    ∷ Action.revenue 5 none
    ∷ []

start-IsIndexed : IsIndexed {P = ℕ} [] []
start-IsIndexed = record { unique = tt; indexed = λ id p. refl }

run-IsBalanced_example : IsBalanced (run actions start)
run-IsBalanced_example = run-IsBalanced actions start refl

run-IsBounded_example : IsBounded (run actions start)
run-IsBounded_example = run-IsBounded actions start (initial-IsBounded [])

upsert_events-IsIndexed_example :
    IsIndexed
      (upsert_events two_events start).audit_log
      (upsert_events two_events start).event_index
upsert_events-IsIndexed_example = upsert_events-IsIndexed two_events start start-IsIndexed
