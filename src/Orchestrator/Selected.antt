-- ===== src/Orchestrator/Selected.antt =====
-- When winners are selected, and with what priority (`scheduleWinnerSelection`,
-- `evaluateWinnerSelectionReadiness` and `resolveWinnerSelectionPriority` of
-- orchestrator/src/orchestrator.js).
use native.Mathlib.Nat.{le-div_iff_mul-le}
use audit_guard.Prelude.{
  ℕ, ◌+◌, ◌*◌, ◌/◌, ◌≤◌, ◌<◌, String, ◌≡◌, refl, Bool, true, false, Option, none, some, [], ◌∷◌,
  ltb, lt→ltb, le→leb, ◌&&◌, ◌||◌, not, if◌then◌else◌, ◌or_else◌, is_some, arith, ◌-◌, List, le→ltb,
  inl, inr, Bool-cases,
}
use audit_guard.Prelude.Map
use audit_guard.Prelude.Map.{Map}
use audit_guard.Orchestrator.Selection.{no_hint}
use audit_guard.Orchestrator.Readiness.{
  Job, Timing, Timer, State, normal, high, Hint, Answers, Readiness, first_job, pick_deadline,
  is_reached, reason_of, is_ready, evaluate, resolve_priority, has_deadline, delay_ms, timer_ms,
  ChainJob, mark_scheduled, update_job, clear_timer, schedule, chain_status_of,
}

-- A job is ready just if it exists, is not in a terminal state, its deadline is over and it has bids.
reason_of-ready :
    (job_exists terminal reached has_bids : Bool)
    → is_ready (reason_of job_exists terminal reached has_bids)
      ≡ ((job_exists && not terminal) && reached && has_bids)
unfolding reason_of is_ready
reason_of-ready true true reached has_bids = refl
reason_of-ready true false true true = refl
reason_of-ready true false true false = refl
reason_of-ready true false false has_bids = refl
reason_of-ready false terminal reached has_bids = refl

resolve_priority-can_select :
    (fast rest : Bool) (r : Readiness)
    → r.can_select ≡ (rest && r.deadline_reached && ltb 0 (r.onchain_bid_count or_else 0))
    → resolve_priority fast r ≡ (if fast && r.can_select then high else normal)
unfolding resolve_priority
resolve_priority-can_select fast rest r h = ground (arith, h)

-- The guards of the priority that the readiness already has add nothing: it is high just on the fast
-- path for a job whose winners can be selected.
pub resolve_priority-evaluate :
    (fast : Bool) (now_ms : ℕ) (job : Option Job) (hint : Hint) (answers : Answers)
    → resolve_priority fast (evaluate now_ms job hint answers)
      ≡ (if fast && (evaluate now_ms job hint answers).can_select then high else normal)
unfolding evaluate
resolve_priority-evaluate fast now_ms job hint answers =
    let chain_job = first_job hint.chain_job answers.chain_job in
    let exists = is_some job || is_some chain_job in
    let terminal = ltb 1 (chain_status_of hint chain_job) in
    let r = evaluate now_ms job hint answers in
    resolve_priority-can_select fast (exists && not terminal) r
      (reason_of-ready exists terminal r.deadline_reached r.has_bids)

-- The delay to the deadline and the grace time fits a timer.
abbrev pub IsNear : Timing → ℕ → ℕ → Type 0
IsNear timing now_ms d = d * 1000 + timing.grace_ms ≤ now_ms + 2147483647

timer_ms-near : (n : ℕ) → n ≤ 2147483647 → n ≤ timer_ms n
unfolding timer_ms
timer_ms-near n near = ground (arith, near)

delay-reaches :
    (timing : Timing) (now_ms d : ℕ)
    → 0 < d
    → IsNear timing now_ms d
    → d * 1000 + timing.grace_ms ≤ now_ms + timer_ms (delay_ms timing now_ms (some d))
unfolding delay_ms has_deadline
delay-reaches timing now_ms d pos near = rw (lt→ltb 0 d pos) (
    let wait = (d * 1000 + timing.grace_ms) - now_ms in
    omega (arith, timer_ms-near wait (omega (arith, near))))

-- When the timer of a deadline fires, the deadline is reached.
fired-reaches :
    (timing : Timing) (now_ms d : ℕ)
    → 0 < d
    → IsNear timing now_ms d
    → d ≤ (now_ms + timer_ms (delay_ms timing now_ms (some d))) / 1000
fired-reaches timing now_ms d pos near =
    let fires = now_ms + timer_ms (delay_ms timing now_ms (some d)) in
    let late = delay-reaches timing now_ms d pos near in
    (le-div_iff_mul-le {k = 1000} {x = d} {y = fires} (omega arith)).1 (omega arith)

-- The chain gives no deadline after this one.
abbrev pub IsBefore : ℕ → Option ℕ → Type 0
IsBefore d none = Unit
IsBefore d (some c) = c ≤ d

-- The chain does not give the job, or has it as open or as past its bids, with no later deadline.
abbrev pub IsSelectable : ℕ → Option ChainJob → Type 0
IsSelectable d none = Unit
IsSelectable d (some j) = ((j.status or_else 0) ≤ 1) × IsBefore d j.auction_deadline

-- What a chain answers that knows of so many bids.
abbrev pub knows : Option ChainJob → ℕ → Answers
knows o bids = record { chain_job = o; onchain_bid_count = some bids }

pick-mark_scheduled :
    (timing : Timing) (now_ms d : ℕ) (job : Job)
    → 0 < d
    → pick_deadline ((mark_scheduled timing now_ms (some d) job).auction_deadline_sec ∷ []) ≡ some d
unfolding pick_deadline mark_scheduled has_deadline
pick-mark_scheduled timing now_ms d job pos = let above = lt→ltb 0 d pos in simp above refl

picked-is_reached :
    (fires d : ℕ) (o : Option ℕ) (rest : List (Option ℕ))
    → d ≤ fires / 1000
    → IsBefore d o
    → pick_deadline rest ≡ some d
    → is_reached fires (pick_deadline (o ∷ rest)) ≡ true
unfolding pick_deadline is_reached
picked-is_reached fires d none rest late before e = rw e (le→leb d (fires / 1000) late)
picked-is_reached fires d (some c) rest late before e = elim (Bool-cases (ltb 0 c)) [
  | inl above ↦ simp above (le→leb c (fires / 1000) (omega (arith, late, before)))
  | inr unset ↦ simp unset (rw e (le→leb d (fires / 1000) late))
]

scheduled-can_select :
    (timing : Timing) (now_ms d bids : ℕ) (job : Job) (o : Option ChainJob)
    → 0 < d
    → 0 < bids
    → IsNear timing now_ms d
    → IsSelectable d o
    → (evaluate
        (now_ms + timer_ms (delay_ms timing now_ms (some d)))
        (some (mark_scheduled timing now_ms (some d) job))
        no_hint
        (knows o bids)).can_select
      ≡ true
unfolding evaluate
scheduled-can_select timing now_ms d bids job none pos some_bids near open_still =
    let picked = pick-mark_scheduled timing now_ms d job pos in
    let fires = now_ms + timer_ms (delay_ms timing now_ms (some d)) in
    let reached =
      picked-is_reached fires d none
        ((mark_scheduled timing now_ms (some d) job).auction_deadline_sec ∷ [])
        (fired-reaches timing now_ms d pos near) tt picked in
    let above = lt→ltb 0 bids some_bids in simp (reached, above) refl
scheduled-can_select timing now_ms d bids job (some j) pos some_bids near open_still =
    let picked = pick-mark_scheduled timing now_ms d job pos in
    let fires = now_ms + timer_ms (delay_ms timing now_ms (some d)) in
    let reached =
      picked-is_reached fires d j.auction_deadline
        ((mark_scheduled timing now_ms (some d) job).auction_deadline_sec ∷ [])
        (fired-reaches timing now_ms d pos near) open_still.1 picked in
    let ahead : ltb 1 (j.status or_else 0) ≡ false = le→ltb 1 (j.status or_else 0) open_still.0 in
    let above = lt→ltb 0 bids some_bids in simp (reached, ahead, above) refl

get-update_job :
    (timing : Timing) (now_ms d : ℕ) (key : String) (job : Job) (jobs : Map Job)
    → Map.get key jobs ≡ some job
    → Map.get key (update_job timing now_ms (some d) key (Map.get key jobs) jobs)
      ≡ some (mark_scheduled timing now_ms (some d) job)
unfolding update_job
get-update_job timing now_ms d key job jobs here =
    rw here (Map.get-set_self key (mark_scheduled timing now_ms (some d) job) jobs)

-- A selection that is scheduled for a deadline in the reach of a timer starts a timer of that job which
-- fires when the deadline and the grace time are over, and when it fires the winners can be selected,
-- if the chain then knows of bids and, where it gives the job, has it as selectable.
pub schedule-can_select :
    (timing : Timing) (now_ms d bids : ℕ) (key trigger : String) (job : Job) (o : Option ChainJob)
    (s : State)
    → 0 < d
    → 0 < bids
    → IsNear timing now_ms d
    → IsSelectable d o
    → Map.get key s.jobs ≡ some job
    → (t : Timer) × (Map.get key (schedule timing now_ms key (some d) trigger s).timers ≡ some t)
      × (d * 1000 + timing.grace_ms ≤ t.fires_at)
      × ((evaluate t.fires_at
            (Map.get key (schedule timing now_ms key (some d) trigger s).jobs)
            no_hint
            (knows o bids)).can_select
          ≡ true)
unfolding schedule clear_timer
schedule-can_select timing now_ms d bids key trigger job o s pos some_bids near open_still here =
    let timer : Timer = record {
      fires_at = now_ms + timer_ms (delay_ms timing now_ms (some d));
      trigger_path = trigger;
    } in
    (
      timer,
      Map.get-set_self key timer (Map.delete key s.timers),
      delay-reaches timing now_ms d pos near,
      rw (get-update_job timing now_ms d key job s.jobs here)
          (scheduled-can_select timing now_ms d bids job o pos some_bids near open_still),
    )
