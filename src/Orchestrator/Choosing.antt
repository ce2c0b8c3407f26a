-- ===== src/Orchestrator/Choosing.antt =====
-- How `selectWinnersOnChain` of orchestrator/src/orchestrator.js chooses among bids, with
-- `findAgentIdByAddress` and `mapOnChainBidsToLocal`. `ethers.isAddress` is a parameter. An amount is
-- in a smallest part of the token, of which `unit` make one; the code has the double nearest to it, and
-- the greatest of these is the double of the greatest. Times and reputations are natural numbers.
use Prim.Native.String.{◌++◌ as append}
use audit_guard.Prelude.{
  ℕ, zero, suc, ◌+◌, ◌-◌, ◌*◌, String, Bool, true, false, Option, none, some, List, [], ◌∷◌, ◌++◌,
  lower, leb, ◌==◌, ◌===◌, ◌&&◌, ◌||◌, not, if◌then◌else◌, ◌or_else◌, is_empty, truthy, member, max,
}
use audit_guard.Prelude.Map
use audit_guard.Prelude.Map.{Map}
use audit_guard.Orchestrator.Address.{normalize_address}
use audit_guard.Orchestrator.Roster.{Agent, Roster}
use audit_guard.Orchestrator.Doubles.{Double, of_ratio, add, subtract, multiply, divide}
pub mod Best
mod Examples

pub record ChainBid : Type 0 where
  pub agent : Option String
  pub bid_amount : ℕ
  pub collateral_locked : ℕ
  pub estimated_completion_time : ℕ
  pub reputation_at_bid : ℕ
  pub timestamp : ℕ

pub record Bid : Type 0 where
  pub agent_id : String
  pub evm_address : Option String
  pub bid_amount : ℕ
  pub collateral : ℕ
  pub estimated_time_sec : ℕ
  pub reputation : ℕ
  pub timestamp : ℕ
  pub onchain_bid_index : Option ℕ

module _ (is_address : String → Bool) where
  unfoldable pub address_of : Option String → String
  address_of value = lower (normalize_address is_address value)

  unfoldable pub find_address : String → Roster → String
  unfolding address_of
  find_address address [] = ""
  find_address address ((id, a) ∷ agents) =
      let rest = find_address address agents in
      let current = address_of a.evm_address in
      if not (is_empty current) && current === address then id else rest

  unfoldable pub find_agent_id : Roster → Option String → String
  unfolding address_of find_address
  find_agent_id roster evm_address =
      let address = address_of evm_address in
      if is_empty address then "" else find_address address roster

  -- `findAgentIdByAddress(address) || "onchain:…"`
  unfoldable pub name_of : Roster → String → String
  unfolding find_agent_id
  name_of roster address =
      let id = find_agent_id roster (some address) in
      if is_empty id then append "onchain:" (lower address) else id

  unfoldable pub local_bid : Roster → ℕ → String → ChainBid → Bid
  unfolding name_of
  local_bid roster index address bid = record {
    agent_id = name_of roster address;
    evm_address = some address;
    bid_amount = bid.bid_amount;
    collateral = bid.collateral_locked;
    estimated_time_sec = bid.estimated_completion_time;
    reputation = bid.reputation_at_bid;
    timestamp = bid.timestamp;
    onchain_bid_index = some index;
  }

  -- The bids of valid addresses, each with its place among all bids, from a place on.
  unfoldable pub map_chain_bids : Roster → ℕ → List ChainBid → List Bid
  unfolding local_bid
  map_chain_bids roster index [] = []
  map_chain_bids roster index (bid ∷ bids) =
      let rest = map_chain_bids roster (index + 1) bids in
      let address = normalize_address is_address bid.agent in
      if is_empty address then rest else local_bid roster index address bid ∷ rest

unfoldable pub or_unit : ℕ → ℕ → ℕ
or_unit unit n = if n == 0 then unit else n

-- `Math.max(...bids.map((b) => b.bidAmount || 1), 1)`
unfoldable pub max_bid : ℕ → List Bid → ℕ
unfolding or_unit
max_bid unit [] = unit
max_bid unit (b ∷ bids) = max (or_unit unit b.bid_amount) (max_bid unit bids)

unfoldable pub max_time : List Bid → ℕ
unfolding or_unit
max_time [] = 1
max_time (b ∷ bids) = max (or_unit 1 b.estimated_time_sec) (max_time bids)

-- 0.55 of the reputation in hundredths, 0.25 of the price and 0.20 of the speed, in doubles.
unfoldable pub score : ℕ → ℕ → ℕ → Bid → Double
unfolding of_ratio add subtract multiply divide
score unit most_bid most_time b =
    let one = of_ratio 1 1 in
    let rep_score =
      multiply (divide (of_ratio b.reputation 1) (of_ratio 100 1)) (of_ratio 55 100) in
    let price_part = divide (of_ratio b.bid_amount unit) (of_ratio most_bid unit) in
    let speed_part = divide (of_ratio b.estimated_time_sec 1) (of_ratio most_time 1) in
    let price_score = multiply (subtract one price_part) (of_ratio 25 100) in
    let speed_score = multiply (subtract one speed_part) (of_ratio 20 100) in
    add (add rep_score price_score) speed_score

pub record Scored : Type 0 where
  pub bid : Bid
  pub bid_index : ℕ
  pub points : Double

unfoldable pub score_all : ℕ → ℕ → ℕ → ℕ → List Bid → List Scored
unfolding score
score_all unit most_bid most_time index [] = []
score_all unit most_bid most_time index (b ∷ bids) =
    record { bid = b; bid_index = index; points = score unit most_bid most_time b }
    ∷ score_all unit most_bid most_time (index + 1) bids

-- The stable sort by falling score: an earlier bid stays before a later one of the same score.
unfoldable pub insert_scored : Scored → List Scored → List Scored
insert_scored x [] = x ∷ []
insert_scored x (y ∷ ys) =
    let rest = insert_scored x ys in if leb y.points x.points then x ∷ y ∷ ys else y ∷ rest

unfoldable pub sort_scored : List Scored → List Scored
unfolding insert_scored
sort_scored [] = []
sort_scored (x ∷ xs) = insert_scored x (sort_scored xs)

unfoldable pub dedupe_key : Bid → Option String → String
dedupe_key b none = append "agent:" (lower b.agent_id)
dedupe_key b (some address) = lower address

abbrev pub max_selected : ℕ
max_selected = 1

-- The loop over the sorted bids, with the keys seen and how many more are taken.
unfoldable pub pick : List String → ℕ → List Scored → List Scored
unfolding dedupe_key
pick seen zero xs = []
pick seen (suc left) [] = []
pick seen (suc left) (x ∷ xs) =
    let key = dedupe_key x.bid (truthy x.bid.evm_address) in
    let skipped = pick seen (suc left) xs in
    let taken = x ∷ pick (key ∷ seen) left xs in
    if is_empty key || member key seen then skipped else taken

unfoldable pub choose_winners : ℕ → List Bid → List Scored
unfolding max_bid max_time score_all sort_scored pick
choose_winners unit bids =
    pick [] max_selected (sort_scored (score_all unit (max_bid unit bids) (max_time bids) 0 bids))

-- The index that the chain is given: that of the chain's list where the bid has one.
unfoldable pub index_of : Scored → ℕ
index_of s = s.bid.onchain_bid_index or_else s.bid_index

unfoldable pub winning_indices : List Scored → List ℕ
unfolding index_of
winning_indices [] = []
winning_indices (s ∷ ss) = index_of s ∷ winning_indices ss

unfoldable pub if_address : Option String → List String → List String
if_address none rest = rest
if_address (some address) rest = address ∷ rest

unfoldable pub winner_addresses : List Scored → List String
unfolding if_address
winner_addresses [] = []
winner_addresses (s ∷ ss) = if_address (truthy s.bid.evm_address) (winner_addresses ss)
