-- ===== src/Dashboard/State.antt =====
-- The data of the dashboard's store, and its state as the store creates it.
-- `P` is any payload that the store keeps and never looks into.
use audit_guard.Prelude.{ℕ, String, Bool, false, Option, none, List, [], ◌∷◌}
use audit_guard.Prelude.Map.{Map}

-- A number of a message as `Number(value)` gives it: a number with no fraction, or NaN or infinite.
pub data Numeric : Type 0 where
  finite : ℕ → Numeric
  not_finite : Numeric

pub record Discovery (P : Type 0) : Type 0 where
  pub contract_address : Option String
  pub initial_risk_score : Option Numeric
  pub risk_score : Option Numeric
  pub estimated_line_count : Option Numeric
  pub estimated_loc : Option Numeric
  pub body : P

-- `eventId` or `flowId`, and the rest of the message.
pub record Entry (P : Type 0) : Type 0 where
  pub id : Option String
  pub body : P

pub record Job (P : Type 0) : Type 0 where
  pub terminal_status : Option String
  pub ended_at : Option ℕ
  pub terminal_tx_hash : Option String
  pub body : P

pub record Terminal : Type 0 where
  pub status : Option String
  pub ended_at : Option ℕ
  pub tx_hash : Option String

pub record BidStatus (P : Type 0) : Type 0 where
  pub event_id : Option String
  pub status : Option String
  pub agent_id : Option String
  pub body : P

-- `fields` is the whole object, the two keys included.
pub record SubJob (P : Type 0) : Type 0 where
  pub sub_job_id : String
  pub parent_job_id : String
  pub fields : Map P

pub record Listing (P : Type 0) : Type 0 where
  pub listing_id : String
  pub parent_job_id : Option String
  pub body : P

pub record Purchase (P : Type 0) : Type 0 where
  pub listing_id : String
  pub buyer : Option String
  pub rating : Option ℕ
  pub body : P

pub record Settlement (P : Type 0) : Type 0 where
  pub settlement_id : String
  pub job_id : String
  pub body : P

pub record Agent (P : Type 0) : Type 0 where
  pub staked_amount : Option ℕ
  pub body : Option P

pub record Revenue : Type 0 where
  pub total : ℕ
  pub audit_fees : ℕ
  pub marketplace_fees : ℕ
  pub report_fees : ℕ
  pub slashing_proceeds : ℕ
  pub sub_auction_fees : ℕ

pub record Health (P : Type 0) : Type 0 where
  pub last_hcs_seq : Map ℕ
  pub last_topic_seq : Map ℕ
  pub duplicates_dropped : ℕ
  pub duplicate_drops : ℕ
  pub fields : Map P

-- The argument of `setIngestionHealth`: what it leaves out is `none`.
pub record Patch (P : Type 0) : Type 0 where
  pub last_hcs_seq : Option (Map ℕ)
  pub last_topic_seq : Option (Map ℕ)
  pub duplicates_dropped : Option ℕ
  pub duplicate_drops : Option ℕ
  pub fields : Map P

pub record State (P : Type 0) : Type 0 where
  pub is_connected : Bool
  pub connection_error : Option P
  pub config : Option P
  pub contracts : Option P
  pub hedera_client : Option P
  pub ethers_provider : Option P
  pub use_mock_events : Bool
  pub discoveries : List (Discovery P)
  pub discoveries_by_address : Map (Discovery P)
  pub active_jobs : Map (Job P)
  pub job_terminal : Map Terminal
  pub bids : Map (List P)
  pub job_bid_status : Map (List (BidStatus P))
  pub llm_provider_status : Map (List P)
  pub llm_inference_status : Map (List P)
  pub agents : Map (Agent P)
  pub audit_log : List (Entry P)
  pub event_index : Map (Unit {0})
  pub report_metadata : Map P
  pub winners : Map P
  pub sub_jobs : Map (Map P)
  pub sub_bids : Map (List P)
  pub parent_sub_jobs : Map (List String)
  pub data_listings : Map (Listing P)
  pub data_purchases : List (Purchase P)
  pub job_listings : Map (List String)
  pub settlements : Map (Settlement P)
  pub job_settlements : Map String
  pub guard_flows : List (Entry P)
  pub flow_index : Map (Unit {0})
  pub health : Health P
  pub stats : Map ℕ
  pub agent_profiles : Map P
  pub reputation_history : Map (List P)
  pub contract_health : Map P
  pub slash_events : List P
  pub revenue : Revenue
  pub treasury_distributions : List P
  pub active_tab : String
  pub selected_agent : Option String
  pub selected_contract : Option String
  pub stake_history : Map (List P)
  pub hss_events : List P

abbrev pub no_revenue : Revenue
no_revenue = record {
  total = 0;
  audit_fees = 0;
  marketplace_fees = 0;
  report_fees = 0;
  slashing_proceeds = 0;
  sub_auction_fees = 0;
}

abbrev pub no_sequence : Map ℕ
no_sequence = ("discovery", 0) ∷ ("auditLog", 0) ∷ ("agentComms", 0) ∷ []

abbrev pub no_stats : Map ℕ
no_stats =
    ("totalDiscoveries", 0)
    ∷ ("totalAuctions", 0)
    ∷ ("totalBids", 0)
    ∷ ("guardTransacted", 0)
    ∷ ("totalSubAuctions", 0)
    ∷ ("totalDataSales", 0)
    ∷ ("totalSettlements", 0)
    ∷ ("totalGuardTransacted", 0)
    ∷ []

-- `fields` are the constants of `ingestionHealth` that the store sets and never reads.
abbrev pub no_health : {P : Type 0} → Map P → Health P
no_health fields = record {
  last_hcs_seq = no_sequence;
  last_topic_seq = no_sequence;
  duplicates_dropped = 0;
  duplicate_drops = 0;
  fields = fields;
}

-- The state that `create` begins with, given those constants.
abbrev pub initial : {P : Type 0} → Map P → State P
initial fields = record {
  is_connected = false;
  connection_error = none;
  config = none;
  contracts = none;
  hedera_client = none;
  ethers_provider = none;
  use_mock_events = false;
  discoveries = [];
  discoveries_by_address = [];
  active_jobs = [];
  job_terminal = [];
  bids = [];
  job_bid_status = [];
  llm_provider_status = [];
  llm_inference_status = [];
  agents = [];
  audit_log = [];
  event_index = [];
  report_metadata = [];
  winners = [];
  sub_jobs = [];
  sub_bids = [];
  parent_sub_jobs = [];
  data_listings = [];
  data_purchases = [];
  job_listings = [];
  settlements = [];
  job_settlements = [];
  guard_flows = [];
  flow_index = [];
  health = no_health fields;
  stats = no_stats;
  agent_profiles = [];
  reputation_history = [];
  contract_health = [];
  slash_events = [];
  revenue = no_revenue;
  treasury_distributions = [];
  active_tab = "liveFeed";
  selected_agent = none;
  selected_contract = none;
  stake_history = [];
  hss_events = [];
}
