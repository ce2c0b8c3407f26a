-- ===== src/Orchestrator/SelectRun.antt =====
-- `runSelect` of `selectWinnersOnChain` in orchestrator/src/orchestrator.js: which job and which bids a
-- selection is for, and what stops it. The single flight around it is that of `Closing`.
use audit_guard.Prelude.{
  ℕ, zero, suc, ◌+◌, ◌*◌, String, Bool, true, false, Option, none, some, List, [], ◌∷◌, ◌++◌, ltb,
  ◌==◌, ◌||◌, ◌&&◌, not, if◌then◌else◌, ◌or_else◌, truthy, length,
}
use audit_guard.Prelude.Map
use audit_guard.Prelude.Map.{Map}
use audit_guard.Orchestrator.Errors.{is_insufficient_funds, is_retriable}
use audit_guard.Orchestrator.Roster.{Agent, Roster}
use audit_guard.Orchestrator.Choosing.{
  ChainBid, Bid, map_chain_bids, Scored, choose_winners, winning_indices, winner_addresses,
}
use audit_guard.Orchestrator.Hydration.{
  Reason, missing_job_state, hydration_failed, no_bids, no_valid_indices, on_chain_status, error,
  Job, ChainJob, hydrate,
}
use audit_guard.Orchestrator.Selecting.{
  Config, State, Step, Run, World, selection_skipped, summary, job_failed, tx_failed, close_auction,
  timing, publish_then, Result, success, failure, skip, behind, set_job, cool, fail_with,
  attempt_all, max_attempts,
}
pub mod Outcome
pub mod Quiet
mod Examples

module _ (config : Config) (roster : Roster) (key : String) where
  unfoldable pub with_winners : World → List Scored → Job → State → Run
  unfolding attempt_all set_job fail_with publish_then
  with_winners w [] job s =
      let failed = set_job key (fail_with no_valid_indices (record job { winners = [] })) s in
      let end : Run = record {
        state = failed;
        steps = timing 0 failure (some no_valid_indices) ∷ [];
      } in
      publish_then w.tx_failed_taken (tx_failed no_valid_indices) failed
        (publish_then w.job_failed_taken (job_failed no_valid_indices) failed end)
  with_winners w (x ∷ winners) job s =
      attempt_all config roster key w (x ∷ winners) (max_attempts config roster key) 1
        (record job { winners = winner_addresses (x ∷ winners) }) s

  -- No bids here; `count` is that of the chain.
  unfoldable pub fail_bare : World → Reason → List Step → Job → State → Run
  unfolding set_job fail_with publish_then
  fail_bare w reason rest job s =
      let failed = set_job key (fail_with reason job) s in
      publish_then w.job_failed_taken (job_failed reason) failed
        (record { state = failed; steps = rest })

  unfoldable pub without_bids : World → ℕ → Job → State → Run
  unfolding fail_bare
  without_bids w count job s =
      if ltb 0 count
      then fail_bare w hydration_failed (timing 0 failure (some hydration_failed) ∷ []) job s
      else fail_bare w no_bids (close_auction ∷ timing 0 skip (some no_bids) ∷ []) job s

  unfoldable pub with_bids : World → Option ℕ → List Bid → Job → State → Run
  unfolding without_bids with_winners
  with_bids w count [] job s = without_bids w (count or_else (w.bid_count or_else 0)) job s
  with_bids w count (b ∷ bids) job s = with_winners w (choose_winners config.unit (b ∷ bids)) job s

  -- WINNER_SELECTION_SUMMARY, with the counts of before and after the bids were read.
  unfoldable pub summarize : ℕ → Option ℕ → Job → Step
  summarize heard count job =
      summary (job.eligible_invited_count or_else 0) heard (count or_else length job.bidders)

  unfoldable pub select_among : World → ℕ → Option ℕ → Job → State → Run
  unfolding summarize with_bids behind
  select_among w heard count job s =
      behind (summarize heard count job ∷ []) (with_bids w count job.bidders job s)

  -- The chain's bids take the place of the local ones if they can be read.
  unfoldable pub read_bids : World → ℕ → Option (List ChainBid) → Job → State → Run
  unfolding select_among set_job
  read_bids w heard none job s = select_among w heard w.known_count job s
  read_bids w heard (some bids) job s =
      let job' = record job { bidders = map_chain_bids config.is_address roster 0 bids } in
      select_among w heard (some (length bids)) job' (set_job key job' s)

  unfoldable pub has_none : List Bid → Bool
  has_none [] = true
  has_none (b ∷ bids) = false

  unfoldable pub or_known : Option ℕ → Option ℕ → Option ℕ
  or_known none known = known
  or_known (some n) known = some n

  unfoldable pub on_open : World → Job → State → Run
  unfolding read_bids select_among has_none or_known
  on_open w job s =
      let heard = job.hcs_bid_count or_else length job.bidders in
      if config.has_bid_api
      then read_bids w heard w.bids job s
      else if has_none job.bidders
      then select_among w heard (or_known w.bid_count w.known_count) job s
      else select_among w heard w.known_count job s

  -- A missing status is the number -1.
  unfoldable pub on_status : World → Option (Option ℕ) → Job → State → Run
  unfolding on_open
  on_status w none job s = record { state = s; steps = [] }
  on_status w (some none) job s = record {
    state = s;
    steps =
        selection_skipped (on_chain_status none) ∷ timing 0 skip (some (on_chain_status none)) ∷ [];
  }
  on_status w (some (some n)) job s = if n == 0 || n == 1 then on_open w job s else record {
    state = s;
    steps =
        selection_skipped (on_chain_status (some n))
        ∷ timing 0 skip (some (on_chain_status (some n)))
        ∷ [];
  }

  unfoldable pub on_job : World → Option Job → State → Run
  unfolding on_status cool
  on_job w none s = record {
    state = cool (w.now_ms + config.cooldown_ms) key s;
    steps = selection_skipped missing_job_state ∷ timing 0 skip (some missing_job_state) ∷ [];
  }
  on_job w (some job) s = on_status w w.status job s

  unfoldable pub keep_hydrated : Option Job → State → State
  unfolding set_job
  keep_hydrated none s = s
  keep_hydrated (some job) s = set_job key job s

  -- A job that is not there is built from the chain, if it can be.
  unfoldable pub find_job : World → Option Job → State → Run
  unfolding on_job keep_hydrated hydrate
  find_job w (some job) s = on_job w (some job) s
  find_job w none s =
      let hydrated =
        hydrate config.is_address roster config.rehydrate w.hydration_bids w.chain_job in
      on_job w hydrated (keep_hydrated hydrated s)

  unfoldable pub clear_timer : State → State
  clear_timer s = record s { timers = Map.delete key s.timers }

  unfoldable pub run_select : World → State → Run
  unfolding find_job clear_timer
  run_select w s = let s' = clear_timer s in find_job w (Map.get key s'.jobs) s'
