-- ===== src/Agents/JobLock.antt =====
-- `JobLockManager` of agents/shared/job-lock.ts: its map of promises, and the calls of `withLock` that
-- are not over. A promise is the number of the call that made it, and it is resolved when that call is
-- over, which is the one way it ends.
use audit_guard.Prelude.{
  ℕ, ◌+◌, String, Bool, true, false, Option, none, some, List, [], ◌∷◌, ◌++◌, ◌==◌, ◌&&◌, not,
  if◌then◌else◌, any,
}
use audit_guard.Prelude.Map
use audit_guard.Prelude.Map.{Map}
pub mod Chain
pub mod Exclusive
pub mod Rising
pub mod Progress
mod Examples

-- A call of `withLock`: its own promise, the one it awaits, and whether `fn` has begun. A `previous` of
-- `none` is `Promise.resolve()`.
pub record Call : Type 0 where
  pub id : ℕ
  pub key : String
  pub previous : Option ℕ
  pub running : Bool

-- The calls are in the order in which they were made.
pub record State : Type 0 where
  pub locks : Map ℕ
  pub calls : List Call
  pub next : ℕ

pub data Event : Type 0 where
  enter : String → Event
  begin finish : ℕ → Event

abbrev pub start : State
start = record { locks = []; calls = []; next = 0 }

-- Up to `await prevLock`.
unfoldable pub enter_lock : String → State → State
enter_lock key s =
    let call : Call = record {
      id = s.next;
      key = key;
      previous = Map.get key s.locks;
      running = false;
    } in
    record { locks = Map.set key s.next s.locks; calls = s.calls ++ call ∷ []; next = s.next + 1 }

unfoldable pub is_pending : ℕ → List Call → Bool
is_pending p calls = any (λ call. call.id == p) calls

unfoldable pub is_resolved : Option ℕ → List Call → Bool
unfolding is_pending
is_resolved none calls = true
is_resolved (some p) calls = not (is_pending p calls)

unfoldable pub keep_call : Call → Option (List Call) → Option (List Call)
keep_call c none = none
keep_call c (some calls) = some (c ∷ calls)

-- Behind `await prevLock`: `fn` begins. `calls` are all calls, for the promises.
unfoldable pub begin_call : ℕ → List Call → List Call → Option (List Call)
unfolding is_resolved keep_call
begin_call id calls [] = none
begin_call id calls (c ∷ cs) =
    let rest = begin_call id calls cs in
    if c.id == id
    then if not c.running && is_resolved c.previous calls
      then some (record c { running = true } ∷ cs)
      else none
    else keep_call c rest

unfoldable pub keep_finished : Call → Option (String × List Call) → Option (String × List Call)
keep_finished c none = none
keep_finished c (some (key, calls)) = some (key, c ∷ calls)

-- The `finally` block: the call resolves its promise, and its key is deleted.
unfoldable pub finish_call : ℕ → List Call → Option (String × List Call)
unfolding keep_finished
finish_call id [] = none
finish_call id (c ∷ cs) =
    let rest = finish_call id cs in
    if c.id == id then if c.running then some (c.key, cs) else none else keep_finished c rest

unfoldable pub after_begin : State → Option (List Call) → Option State
after_begin s none = none
after_begin s (some calls) = some (record s { calls = calls })

unfoldable pub after_finish : State → Option (String × List Call) → Option State
after_finish s none = none
after_finish s (some (key, calls)) =
    some (record s { locks = Map.delete key s.locks; calls = calls })

-- `none` where the event cannot happen.
unfoldable pub step : Event → State → Option State
unfolding enter_lock begin_call finish_call after_begin after_finish
step (enter key) s = some (enter_lock key s)
step (begin id) s = after_begin s (begin_call id s.calls s.calls)
step (finish id) s = after_finish s (finish_call id s.calls)

unfoldable pub run_from : (State → Option State) → Option State → Option State
run_from rest none = none
run_from rest (some s) = rest s

unfoldable pub run : List Event → State → Option State
unfolding step run_from
run [] s = some s
run (e ∷ es) s = run_from (run es) (step e s)
