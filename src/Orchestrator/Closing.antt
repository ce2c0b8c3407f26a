-- ===== src/Orchestrator/Closing.antt =====
-- `closeExpiredAuction` of orchestrator/src/orchestrator.js. What the chain, the audit log and the
-- clock answer in each attempt is an argument; what the code calls is a list of steps, in order.
use Prim.Native.String.{◌++◌ as append}
use audit_guard.Prelude.{
  ℕ, zero, suc, ◌+◌, ◌*◌, String, Bool, true, false, Option, none, some, List, [], ◌∷◌, ◌++◌, ◌==◌,
  ◌||◌, ◌&&◌, not, if◌then◌else◌, member, keep, ◌===◌, is_some,
}
use audit_guard.Prelude.Map
use audit_guard.Prelude.Map.{Map}
use audit_guard.Orchestrator.Errors.{is_auction_terminal, is_insufficient_funds, is_retriable}
pub mod Answered
pub mod Attempts
pub mod Again
pub mod SingleFlight
mod Examples

-- The fields of a job that closing reads or writes.
pub record Job : Type 0 where
  pub contract_address : Option String
  pub cancelled_on_chain : Bool
  pub cancelled_reason : Option String
  pub terminal_on_chain : Bool
  pub terminal_reason : Option String
  pub terminal_tx_hash : Option String
  pub terminal_at : Option ℕ

-- `{ contractAddress: null }`
unfoldable pub new_job : Job
new_job = record {
  contract_address = none;
  cancelled_on_chain = false;
  cancelled_reason = none;
  terminal_on_chain = false;
  terminal_reason = none;
  terminal_tx_hash = none;
  terminal_at = none;
}

-- The jobs, when the winner timers fire, and the keys of `inflightCloseJobs`.
pub record State : Type 0 where
  pub jobs : Map Job
  pub timers : Map ℕ
  pub inflight : List String

pub data Step : Type 0 where
  top_up cancel_job job_cancelled retry_top_up skipped : Step
  wait : ℕ → Step
  tx_failed : String → Step

-- `cancelJob` gives a receipt, with its hash if it has one, or throws.
pub data Cancelled : Type 0 where
  receipt : Option String → Cancelled
  failed : String → Cancelled

-- What one attempt meets: an error of the top-up, the call's result, an error of the audit log, and
-- the clock.
pub record Answers : Type 0 where
  pub top_up_error : Option String
  pub cancelled : Cancelled
  pub publish_error : Option String
  pub at : ℕ

-- The promise: fulfilled with true or false, or rejected.
pub data Verdict : Type 0 where
  closed open_still : Verdict
  rejected : String → Verdict

pub record Run : Type 0 where
  pub state : State
  pub steps : List Step
  pub verdict : Verdict

unfoldable pub mark_cancelled : String → Option String → ℕ → Job → Job
mark_cancelled reason hash at job = record job {
  cancelled_on_chain = true;
  cancelled_reason = some reason;
  terminal_on_chain = true;
  terminal_reason = some "cancelled";
  terminal_tx_hash = hash;
  terminal_at = some at;
}

unfoldable pub mark_terminal : String → ℕ → Job → Job
mark_terminal reason at job = record job {
  cancelled_on_chain = true;
  cancelled_reason = some (append reason ":already_terminal");
  terminal_on_chain = true;
  terminal_reason = some "cancel_already_terminal";
  terminal_at = some at;
}

-- `setJobByKey` and `clearWinnerSelectionTimer`.
unfoldable pub store : String → Job → State → State
store key job s = record s { jobs = Map.set key job s.jobs; timers = Map.delete key s.timers }

-- A run of the `try` block: the job and the state, the steps, and the error if one was thrown.
pub record Tried : Type 0 where
  pub job : Job
  pub state : State
  pub steps : List Step
  pub error : Option String

module _ (key reason : String) where
  unfoldable pub try_cancel : Answers → Job → State → Cancelled → Tried
  unfolding mark_cancelled store
  try_cancel a job s (failed e) = record {
    job = job;
    state = s;
    steps = top_up ∷ cancel_job ∷ [];
    error = some e;
  }
  try_cancel a job s (receipt hash) =
      let done = mark_cancelled reason hash a.at job in
      record {
        job = done;
        state = store key done s;
        steps = top_up ∷ cancel_job ∷ job_cancelled ∷ [];
        error = a.publish_error;
      }

  unfoldable pub try_close : Answers → Job → State → Option String → Tried
  unfolding try_cancel
  try_close a job s (some e) = record { job = job; state = s; steps = top_up ∷ []; error = some e }
  try_close a job s none = try_cancel a job s a.cancelled

  abbrev pub max_attempts : ℕ
  max_attempts = 3

  unfoldable pub pause : String → ℕ → List Step
  pause e attempt =
      let nap = wait (350 * attempt) ∷ [] in
      if is_insufficient_funds e then retry_top_up ∷ nap else nap

  -- After the loop: the failure is published, and that may throw.
  unfoldable pub give_up : Option String → String → State → Run
  give_up none e s = record { state = s; steps = tx_failed e ∷ []; verdict = open_still }
  give_up (some thrown) e s = record {
    state = s;
    steps = tx_failed e ∷ [];
    verdict = rejected thrown;
  }

  unfoldable pub behind : List Step → Run → Run
  behind steps r = record r { steps = steps ++ r.steps }

  -- The end of an attempt: `next` is the loop's next turn.
  unfoldable pub settle_attempt :
      Option String → (Job → State → Run) → Answers → ℕ → Tried → Option String → Run
  unfolding mark_terminal store pause give_up behind
  settle_attempt log next a attempt t none = record {
    state = t.state;
    steps = t.steps;
    verdict = closed;
  }
  settle_attempt log next a attempt t (some e) =
      if is_auction_terminal e
      then record {
        state = store key (mark_terminal reason a.at t.job) t.state;
        steps = t.steps;
        verdict = closed;
      }
      else if not (is_retriable e) || attempt == max_attempts
      then behind t.steps (give_up log e t.state)
      else behind (t.steps ++ pause e attempt) (next t.job t.state)

  -- The loop, with `left` turns before it ends and the answers of each attempt by its number.
  unfoldable pub attempts : (ℕ → Answers) → Option String → ℕ → ℕ → Job → State → Run
  unfolding try_close settle_attempt give_up
  attempts world log zero attempt job s = give_up log "" s
  attempts world log (suc left) attempt job s =
      let t = try_close (world attempt) job s (world attempt).top_up_error in
      settle_attempt log (attempts world log left (attempt + 1)) (world attempt) attempt t t.error

  -- `runClose`; `has_cancel` says whether the client has `cancelJob`.
  unfoldable pub run_close : Bool → (ℕ → Answers) → Option String → Job → State → Run
  unfolding attempts
  run_close has_cancel world log job s =
      if has_cancel
      then attempts world log max_attempts 1 job s
      else record { state = s; steps = []; verdict = open_still }

unfoldable pub job_or_new : Option Job → Job
unfolding new_job
job_or_new none = new_job
job_or_new (some job) = job

unfoldable pub ensure_job : String → Option Job → State → State
unfolding new_job
ensure_job key none s = record s { jobs = Map.set key new_job s.jobs }
ensure_job key (some job) s = s

-- How a call begins: the job is closed already, it joins the run of the key that is under way, or it
-- starts a run of its own.
pub data Begun : Type 0 where
  already joins runs : Begun

-- `inflightCloseJobs.set`
unfoldable pub started : Bool → String → State → State
started single_flight key s = if single_flight then record s { inflight = key ∷ s.inflight } else s

unfoldable pub begin_close : Bool → String → State → Begun × State
unfolding job_or_new ensure_job started
begin_close single_flight key s =
    let job = job_or_new (Map.get key s.jobs) in
    let s' = ensure_job key (Map.get key s.jobs) s in
    if job.cancelled_on_chain
    then (already, s')
    else if single_flight && member key s.inflight
    then (joins, s')
    else (runs, started single_flight key s')

-- `finally`: the key leaves `inflightCloseJobs`.
unfoldable pub end_close : Bool → String → State → State
end_close single_flight key s =
    if single_flight then record s { inflight = keep (λ k. not (k === key)) s.inflight } else s

-- A call with no other under way, from its beginning to its end.
-- `under_way` is the verdict of the run that a joined call waits for.
unfoldable pub finish_call :
    Verdict → Bool → Bool → String → String → (ℕ → Answers) → Option String → Begun × State → Run
unfolding run_close job_or_new end_close
finish_call under_way single_flight has_cancel key reason world log (already, s) = record {
  state = s;
  steps = [];
  verdict = closed;
}
finish_call under_way single_flight has_cancel key reason world log (joins, s) = record {
  state = s;
  steps = skipped ∷ [];
  verdict = under_way;
}
finish_call under_way single_flight has_cancel key reason world log (runs, s) =
    let r = run_close key reason has_cancel world log (job_or_new (Map.get key s.jobs)) s in
    record r { state = end_close single_flight key r.state }

unfoldable pub close_expired_auction :
    Verdict → Bool → Bool → String → String → (ℕ → Answers) → Option String → State → Run
unfolding begin_close finish_call
close_expired_auction under_way single_flight has_cancel key reason world log s =
    finish_call under_way single_flight has_cancel key reason world log
      (begin_close single_flight key s)
