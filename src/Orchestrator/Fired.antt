-- ===== src/Orchestrator/Fired.antt =====
-- What a timer of winner selection brings about (`scheduleWinnerSelection` and
-- `requestWinnerSelection` of orchestrator/src/orchestrator.js).
use audit_guard.Prelude.{ℕ, ◌+◌, ◌*◌, ◌≤◌, ◌<◌, String, ◌≡◌, Bool, true, some, Option, any, ◌∙◌}
use audit_guard.Prelude.Map
use audit_guard.Orchestrator.Readiness.{
  ChainJob, Job, Timing, Timer, State, evaluate, schedule, clear_timer,
}
use audit_guard.Orchestrator.Selection.{no_hint, fire, fire_timer}
use audit_guard.Orchestrator.Requested.{is_select, request_winner_selection_lem}
use audit_guard.Orchestrator.Selected.{knows, IsNear, IsSelectable, schedule-can_select}

fired-select :
    (fast : Bool) (timing : Timing) (now_ms bids : ℕ) (key : String) (o : Option ChainJob)
    (s : State) (t : Timer)
    → Map.get key s.timers ≡ some t
    → (evaluate now_ms (Map.get key s.jobs) no_hint (knows o bids)).can_select ≡ true
    → any is_select (fire_timer fast timing now_ms key (knows o bids) s).1 ≡ true
unfolding fire_timer fire clear_timer
fired-select fast timing now_ms bids key o s t here ready = rw here (
    (request_winner_selection_lem fast timing now_ms key (some t.trigger_path) no_hint
      (knows o bids) (clear_timer key s)).0
    ∙ ready)

-- A selection that is scheduled for the deadline of a tracked job starts a timer of that job which
-- fires when the deadline and the grace time are over, if that is no more than 2147483647 ms ahead; and
-- when it fires winners are selected, if the chain then knows of bids and either does not give the job
-- or has it in the status 0 or 1, or none, with no later deadline.
pub fire_timer-schedule :
    (fast : Bool) (timing : Timing) (now_ms d bids : ℕ) (key trigger : String) (job : Job)
    (o : Option ChainJob) (s : State)
    → 0 < d
    → 0 < bids
    → IsNear timing now_ms d
    → IsSelectable d o
    → Map.get key s.jobs ≡ some job
    → (t : Timer) × (Map.get key (schedule timing now_ms key (some d) trigger s).timers ≡ some t)
      × (d * 1000 + timing.grace_ms ≤ t.fires_at)
      × (any is_select
            (fire_timer fast timing t.fires_at key
              (knows o bids)
              (schedule timing now_ms key (some d) trigger s)).1
          ≡ true)
fire_timer-schedule fast timing now_ms d bids key trigger job o s pos some_bids near open_still
      here =
    let set =
      schedule-can_select timing now_ms d bids key trigger job o s pos some_bids near open_still
        here in
    (
      set.0,
      set.1,
      set.2,
      fired-select fast timing set.0.fires_at bids key o
          (schedule timing now_ms key (some d) trigger s) set.0 set.1 set.3,
    )
