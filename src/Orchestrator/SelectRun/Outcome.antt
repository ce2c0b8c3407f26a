-- ===== src/Orchestrator/SelectRun/Outcome.antt =====
-- What a run of `selectWinnersOnChain` in orchestrator/src/orchestrator.js comes to.
use audit_guard.Prelude.{
  ℕ, ◌≡◌, refl, String, Bool, true, false, Option, none, some, List, [], ◌∷◌, ◌==◌, ◌||◌,
  if◌then◌else◌,
}
use audit_guard.Prelude.Map
use audit_guard.Orchestrator.Roster.{Roster}
use audit_guard.Orchestrator.Choosing.{ChainBid, Bid, map_chain_bids, Scored, choose_winners}
use audit_guard.Orchestrator.Hydration.{Job, hydrate}
use audit_guard.Orchestrator.Selecting.{Config, World}
use audit_guard.Orchestrator.SelectRun.{has_none}

module _ (config : Config) (roster : Roster) (key : String) (w : World) where
  -- The bids which a job is decided on: the chain's if they can be read.
  abbrev pub bids_read : Option (List ChainBid) → Job → List Bid
  bids_read none job = job.bidders
  bids_read (some bids) job = map_chain_bids config.is_address roster 0 bids

  abbrev pub bids_used : Job → List Bid
  bids_used job = if config.has_bid_api then bids_read w.bids job else job.bidders

  abbrev pub found_job : Option Job → Option Job
  found_job none = hydrate config.is_address roster config.rehydrate w.hydration_bids w.chain_job
  found_job (some job) = some job

  abbrev pub chosen : List Bid → List Scored
  chosen bids = choose_winners config.unit bids

  -- Whether there is no bid.
  abbrev pub is_bare : List Bid → Bool
  is_bare [] = true
  is_bare (b ∷ bids) = false

  pub has_none-is_bare : (bids : List Bid) → has_none config roster key bids ≡ is_bare bids
  unfolding has_none
  has_none-is_bare [] = refl
  has_none-is_bare (b ∷ bids) = refl

  -- The contract takes a selection for the statuses 0 and 1.
  abbrev pub is_selectable : Option (Option ℕ) → Bool
  is_selectable (some (some n)) = n == 0 || n == 1
  is_selectable _ = false
