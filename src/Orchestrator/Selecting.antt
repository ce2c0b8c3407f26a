-- ===== src/Orchestrator/Selecting.antt =====
-- The retry loop of `selectWinnersOnChain` in orchestrator/src/orchestrator.js, for the winners that
-- `Choosing` gives. What the chain answers is an argument (`none` where a call throws), and what the
-- code calls or publishes is a list of steps, in order. A message that the audit log refuses is caught,
-- but for the two of a failure. The clock stands still within a run.
use audit_guard.Prelude.{
  ℕ, zero, suc, ◌+◌, ◌*◌, String, Bool, true, false, Option, none, some, List, [], ◌∷◌, ◌++◌, ltb,
  ◌==◌, ◌||◌, ◌&&◌, not, if◌then◌else◌, ◌or_else◌, truthy, length, map,
}
use audit_guard.Prelude.Map
use audit_guard.Prelude.Map.{Map}
use audit_guard.Orchestrator.Errors.{is_insufficient_funds, is_retriable}
use audit_guard.Orchestrator.Roster.{Agent, Roster}
use audit_guard.Orchestrator.Choosing.{
  ChainBid, Bid, map_chain_bids, Scored, choose_winners, winning_indices, winner_addresses,
}
use audit_guard.Orchestrator.Winners.{Cache, Announcement, publish_winner_selected}
use audit_guard.Orchestrator.Hydration.{Reason, error, Job, ChainJob}
pub mod Counts
pub mod Calls

pub data Result : Type 0 where
  success failure skip : Result

pub record State : Type 0 where
  pub jobs : Map Job
  pub timers : Map ℕ
  pub cooldown : Map ℕ
  pub announced : Cache

pub data Step : Type 0 where
  selection_skipped : Reason → Step
  -- the counts of the agents invited, the bids heard of and the bids on the chain
  summary : ℕ → ℕ → ℕ → Step
  job_failed tx_failed : Reason → Step
  close_auction top_up retry_top_up : Step
  select_winners : List ℕ → Step
  announce : List String → Option String → Step
  assign : String → Option String → Step
  wait : ℕ → Step
  timing : ℕ → Result → Option Reason → Step
  -- the run itself throws
  raised : Step

-- `selectWinners` gives a receipt with its hash, or throws.
pub data Answer : Type 0 where
  receipt : Option String → Answer
  throws : String → Answer

pub record Attempt : Type 0 where
  pub top_up_error : Option String
  pub answer : Answer

pub record Config : Type 0 where
  pub unit : ℕ
  pub cooldown_ms : ℕ
  pub announce_window_ms : ℕ
  pub has_bid_api : Bool
  pub rehydrate : Bool
  pub is_address : String → Bool

pub record World : Type 0 where
  -- the job on the chain, as hydration reads it
  pub chain_job : Option (Option ChainJob)
  pub hydration_bids : Option (List ChainBid)
  -- the job's status, if `getJob` does not throw; a missing one is `some none`
  pub status : Option (Option ℕ)
  pub bids : Option (List ChainBid)
  pub bid_count : Option ℕ
  pub attempts : ℕ → Attempt
  -- whether the audit log takes the two messages of a failure, which the code does not catch
  pub tx_failed_taken : Bool
  pub job_failed_taken : Bool
  pub now_ms : ℕ
  -- the count that the readiness holds
  pub known_count : Option ℕ

pub record Run : Type 0 where
  pub state : State
  pub steps : List Step

unfoldable pub behind : List Step → Run → Run
behind steps r = record r { steps = steps ++ r.steps }

-- A message that the audit log may refuse: then the run throws, and the state stays as it is by then.
unfoldable pub publish_then : Bool → Step → State → Run → Run
unfolding behind
publish_then true step s rest = behind (step ∷ []) rest
publish_then false step s rest = record { state = s; steps = step ∷ raised ∷ [] }

unfoldable pub set_job : String → Job → State → State
set_job key job s = record s { jobs = Map.set key job s.jobs }

unfoldable pub cool : ℕ → String → State → State
cool until key s = record s { cooldown = Map.set key until s.cooldown }

unfoldable pub fail_with : Reason → Job → Job
fail_with reason job = record job { failed = true; failure_reason = some reason }

module _ (config : Config) (roster : Roster) (key : String) where
  -- TASK_ASSIGNED goes to the endpoint of a winner that the roster knows.
  unfoldable pub endpoint_of : Option Agent → Option String
  endpoint_of none = none
  endpoint_of (some a) = truthy a.endpoint

  unfoldable pub assign_to : Option String → Option String → List Step → List Step
  assign_to none winner rest = rest
  assign_to (some endpoint) winner rest = assign endpoint winner ∷ rest

  unfoldable pub assignments : List Scored → List Step
  unfolding endpoint_of assign_to
  assignments [] = []
  assignments (w ∷ ws) =
      assign_to (endpoint_of (Map.get w.bid.agent_id roster)) w.bid.evm_address (assignments ws)

  abbrev pub max_attempts : ℕ
  max_attempts = 3

  unfoldable pub pause : String → ℕ → List Step
  pause e attempt =
      let nap = wait (350 * attempt) ∷ [] in
      if is_insufficient_funds e then retry_top_up ∷ nap else nap

  -- After the loop.
  unfoldable pub give_up : World → String → Job → State → Run
  unfolding set_job cool fail_with publish_then
  give_up w e job s =
      let failed = set_job key (fail_with (error e) job) s in
      let end : Run = record {
        state = cool (w.now_ms + config.cooldown_ms) key failed;
        steps = timing max_attempts failure (some (error e)) ∷ [];
      } in
      publish_then w.tx_failed_taken (tx_failed (error e)) failed
        (publish_then w.job_failed_taken (job_failed (error e)) failed end)

  -- WINNER_SELECTED, with what is remembered of it, if there is something to announce.
  unfoldable pub announcement_of :
      World → List Scored → Option String → Cache → Cache × Option Announcement
  announcement_of w winners hash cache =
      publish_winner_selected config.is_address config.announce_window_ms w.now_ms cache key
        (record { tx_hash = hash; total_escrowed = none; platform_fee = none })
        (map some (winner_addresses winners))

  unfoldable pub announce_steps : Option Announcement → List Step
  announce_steps none = []
  announce_steps (some a) = announce a.winners a.tx_hash ∷ []

  unfoldable pub succeed : World → List Scored → Option String → ℕ → Job → State → Run
  unfolding set_job assignments announcement_of announce_steps
  succeed w winners hash attempt job s =
      let (cache, sent) = announcement_of w winners hash s.announced in
      record {
        state =
            set_job key (record job { winner_source = some "on-chain" })
              (record s { announced = cache });
        steps = announce_steps sent ++ (assignments winners ++ timing attempt success none ∷ []);
      }

  -- The end of an attempt that threw: `next` is the loop's next turn.
  unfoldable pub after_error : World → List Step → Run → ℕ → String → Job → State → Run
  unfolding give_up pause behind
  after_error w steps next attempt e job s =
      if not (is_retriable e) || attempt == max_attempts
      then behind steps (give_up w e job s)
      else behind (steps ++ pause e attempt) next

  unfoldable pub after_select : World → List Scored → Run → ℕ → Answer → Job → State → Run
  unfolding succeed after_error behind
  after_select w winners next attempt (receipt hash) job s =
      behind (top_up ∷ select_winners (winning_indices winners) ∷ [])
        (succeed w winners hash attempt job s)
  after_select w winners next attempt (throws e) job s =
      after_error w (top_up ∷ select_winners (winning_indices winners) ∷ []) next attempt e job s

  unfoldable pub attempt_select :
      World → List Scored → Run → ℕ → Option String → Answer → Job → State → Run
  unfolding after_select after_error
  attempt_select w winners next attempt none a job s = after_select w winners next attempt a job s
  attempt_select w winners next attempt (some e) a job s =
      after_error w (top_up ∷ []) next attempt e job s

  unfoldable pub attempt_all : World → List Scored → ℕ → ℕ → Job → State → Run
  unfolding attempt_select give_up
  attempt_all w winners zero attempt job s = give_up w "" job s
  attempt_all w winners (suc left) attempt job s =
      let a = w.attempts attempt in
      attempt_select w winners (attempt_all w winners left (attempt + 1) job s) attempt
        a.top_up_error a.answer job s
