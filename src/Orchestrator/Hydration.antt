-- ===== src/Orchestrator/Hydration.antt =====
-- `hydrateJobForSelection` of orchestrator/src/orchestrator.js, and the job that a selection works on.
-- The chain's answers are arguments; `none` is a call that throws.
use audit_guard.Prelude.{
  ℕ, String, Bool, true, false, Option, none, some, List, [], ltb, ◌==◌, ◌||◌, if◌then◌else◌, trim,
  is_empty,
}
use audit_guard.Orchestrator.Address.{normalize_address}
use audit_guard.Orchestrator.Roster.{Roster}
use audit_guard.Orchestrator.Choosing.{ChainBid, Bid, map_chain_bids}

-- Reasons of the code that are not an error's message.
pub data Reason : Type 0 where
  missing_job_state hydration_failed no_bids no_valid_indices : Reason
  on_chain_status : Option ℕ → Reason
  error : String → Reason

-- The fields of a job that hydration and selection read or write.
pub record Job : Type 0 where
  pub contract_address : Option String
  pub contract_type : Option String
  pub bidders : List Bid
  pub hcs_bid_count : Option ℕ
  pub eligible_invited_count : Option ℕ
  pub winners : List String
  pub failed : Bool
  pub failure_reason : Option Reason
  pub winner_source : Option String
  pub rehydrated_for_selection : Bool
  pub auction_deadline_sec : Option ℕ

-- A job on the chain; its type is `none` where it is no text.
pub record ChainJob : Type 0 where
  pub status : Option ℕ
  pub contract_address : Option String
  pub contract_type : Option String
  pub auction_deadline : Option ℕ

-- `Number(status ?? -1)` is 0 or 1.
unfoldable pub is_selectable : Option ℕ → Bool
is_selectable none = false
is_selectable (some n) = n == 0 || n == 1

unfoldable pub some_text : String → Option String
some_text s = if is_empty s then none else some s

unfoldable pub type_or_unknown : Option String → String
type_or_unknown none = "unknown"
type_or_unknown (some s) = if is_empty (trim s) then "unknown" else s

unfoldable pub positive : Option ℕ → Option ℕ
positive none = none
positive (some n) = if ltb 0 n then some n else none

module _ (is_address : String → Bool) (roster : Roster) where
  -- Where the bids cannot be read, the job has none.
  unfoldable pub hydrated_bidders : Option (List ChainBid) → List Bid
  hydrated_bidders none = []
  hydrated_bidders (some bids) = map_chain_bids is_address roster 0 bids

  unfoldable pub hydrated_job : Option (List ChainBid) → ChainJob → Job
  unfolding some_text type_or_unknown positive hydrated_bidders
  hydrated_job bids chain = record {
    contract_address = some_text (normalize_address is_address chain.contract_address);
    contract_type = some (type_or_unknown chain.contract_type);
    bidders = hydrated_bidders bids;
    hcs_bid_count = none;
    eligible_invited_count = none;
    winners = [];
    failed = false;
    failure_reason = none;
    winner_source = none;
    rehydrated_for_selection = true;
    auction_deadline_sec = positive chain.auction_deadline;
  }

  unfoldable pub hydrate_chain : Option (List ChainBid) → Option (Option ChainJob) → Option Job
  unfolding is_selectable hydrated_job
  hydrate_chain bids none = none
  hydrate_chain bids (some none) = none
  hydrate_chain bids (some (some chain)) =
      if is_selectable chain.status then some (hydrated_job bids chain) else none

  -- `enabled` is rehydrateMissingJobForSelection, with a client that has `getJob`.
  unfoldable pub hydrate : Bool → Option (List ChainBid) → Option (Option ChainJob) → Option Job
  unfolding hydrate_chain
  hydrate enabled bids chain = if enabled then hydrate_chain bids chain else none
