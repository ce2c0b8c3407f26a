-- ===== src/Orchestrator/Reconcile/Examples.antt =====
-- Passes over three active jobs: one with bids, one without, and one whose close fails.
use audit_guard.Orchestrator.Errors.{is_retriable, is_auction_terminal}
use audit_guard.Prelude.{
  lower, ℕ, ◌+◌, ◌≡◌, ◌≢◌, ◌<◌, refl, String, true, false, none, some, [], ◌∷◌, member, ◌===◌,
  if◌then◌else◌, arith,
}
use audit_guard.Prelude.Map
use audit_guard.Orchestrator.Closing
use audit_guard.Orchestrator.Closing.{Answers, receipt, failed, open_still, closed, Verdict}
use audit_guard.Orchestrator.Reconcile.{
  is_expired, is_open, is_over, Limits, World, State, Pass, at_index, start_index, window,
  inspect_count, visit_all, visit, begin_pass, run_of, reconcile,
}
use audit_guard.Orchestrator.Reconcile.Cases.{IsDue}
use audit_guard.Orchestrator.Reconcile.Acts.{IsSound, reconcile-IsSound}
use audit_guard.Orchestrator.Reconcile.Covered.{passes, passes-cover}
use audit_guard.Orchestrator.Reconcile.Backoff.{unclosed, on_key}
use audit_guard.Orchestrator.Reconcile.Cooling.{Failed-visit_all}

abbrev limits : Limits
limits = record {
  max_inspect = 2;
  max_closes = 1;
  max_selects = 1;
  cooldown_ms = 5000;
  single_flight = true;
  has_cancel = true;
}

abbrev reverts : ℕ → Answers
reverts n = record {
  top_up_error = none;
  cancelled = failed "execution reverted";
  publish_error = none;
  at = 0;
}

-- Job "1" has two bids, the others have none; each close of a job is refused.
abbrev world : String → World
world key = record {
  chain_job = some (record { status = some 0; auction_deadline = some 50 });
  bids = if key === "1" then some 2 else some 0;
  at = 90000;
  attempts = reverts;
  log_error = none;
  under_way = open_still;
}

abbrev idle : State
idle = record {
  closing = record { jobs = []; timers = []; inflight = [] };
  cooldown = [];
  cursor = 0;
  is_running = false;
}

-- One more close than the limit, as long as no selection has used up its own.
two_closes :
    (reconcile (record limits { max_inspect = 3 }) 90000 world (some ("2" ∷ "3" ∷ [])) idle).closes
    ≡ 2
unfolding reconcile Map.get Closing.close_expired_auction is_auction_terminal lower is_retriable
    Map.set
two_closes = refl

reconcile-IsSound_example :
    IsSound limits 90000 world (reconcile limits 90000 world (some ("1" ∷ "2" ∷ "3" ∷ [])) idle)
reconcile-IsSound_example = reconcile-IsSound limits 90000 world (some ("1" ∷ "2" ∷ "3" ∷ [])) idle

abbrev clock : ℕ → ℕ
clock k = 90000 + k

abbrev worlds : ℕ → String → World
worlds k = world

passes-cover_example :
    (i : ℕ) × (i < 2)
    × (member "3" (
          window
            ("1" ∷ "2" ∷ "3" ∷ [])
            (start_index (passes limits clock worlds ("1" ∷ "2" ∷ "3" ∷ []) i idle).cursor 3)
            (inspect_count limits 3)
            0)
        ≡ true)
unfolding at_index inspect_count
passes-cover_example =
    passes-cover limits clock worlds "1" ("2" ∷ "3" ∷ []) "3" 2 2 idle (omega arith) refl
      (omega arith)

abbrev start : Pass
start = begin_pass idle

due : IsDue limits 90000 world "2" start
unfolding is_over Map.get begin_pass is_open is_expired
due = record {
  looked_at = refl;
  chain = record { status = some 0; auction_deadline = some 50 };
  on_chain = refl;
  open_there = refl;
  expired = refl;
}

refused : (run_of limits 90000 world "2" start).verdict ≡ open_still
unfolding run_of Closing.close_expired_auction Map.get begin_pass is_auction_terminal lower
    is_retriable
refused = refl

open_still≢closed : open_still ≢ closed
open_still≢closed e = cc

abbrev later : Pass
later = visit_all limits 94000 world ("1" ∷ "2" ∷ []) (visit limits 90000 world "2" start)

Failed-visit_all_example :
    (on_key "2" later.acts ≡ on_key "2" (visit limits 90000 world "2" start).acts)
    × (Map.get "2" later.state.cooldown ≡ some (90000 + 5000))
Failed-visit_all_example =
    Failed-visit_all limits 90000 94000 world world "2" ("1" ∷ "2" ∷ []) start
      (unclosed open_still due refl refused open_still≢closed) (omega arith)
