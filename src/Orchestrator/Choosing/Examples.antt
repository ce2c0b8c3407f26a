-- ===== src/Orchestrator/Choosing/Examples.antt =====
-- A choice among three bids, of which the second and the third score the same.
use audit_guard.Prelude.{lower, ℕ, ◌≡◌, refl, String, none, some, List, [], ◌∷◌}
use audit_guard.Orchestrator.Choosing.{Bid, Scored, choose_winners, winning_indices}
use audit_guard.Orchestrator.Choosing.Best.{IsBest, choose_winners-IsBest}

abbrev bid : String → ℕ → ℕ → Bid
bid address amount reputation = record {
  agent_id = address;
  evm_address = some address;
  bid_amount = amount;
  collateral = 0;
  estimated_time_sec = 60;
  reputation = reputation;
  timestamp = 0;
  onchain_bid_index = none;
}

abbrev others : List Bid
others = bid "0xb" 50 80 ∷ bid "0xc" 50 80 ∷ []

first_of_equals : winning_indices (choose_winners 1 (bid "0xa" 100 20 ∷ others)) ≡ 1 ∷ []
unfolding winning_indices choose_winners lower
first_of_equals = refl

choose_winners-IsBest_example :
    (w : Scored) × (choose_winners 1 (bid "0xa" 100 20 ∷ others) ≡ w ∷ [])
    × IsBest 1 (bid "0xa" 100 20 ∷ others) w
choose_winners-IsBest_example = choose_winners-IsBest 1 (bid "0xa" 100 20) others

-- Two bids of the same exact score, of which the second has the greater double.
abbrev timed : ℕ → ℕ → Bid
timed amount time = record (bid "0xa" amount 30) { estimated_time_sec = time }

rounding_decides : winning_indices (choose_winners 1 (timed 70 3000 ∷ timed 250 300 ∷ [])) ≡ 1 ∷ []
unfolding winning_indices choose_winners lower
rounding_decides = refl
