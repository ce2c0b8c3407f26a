-- ===== src/Dashboard/Agents.antt =====
-- The actions of the store on the connection, the agents, the treasury and the selections.
use audit_guard.Prelude.{
  ℕ, zero, suc, ◌+◌, String, true, false, Option, none, some, [], ◌∷◌, ◌++◌, not, take, take_last,
  ◌or_else◌,
}
use audit_guard.Prelude.Map
use audit_guard.Prelude.Map.{Map}
use audit_guard.Dashboard.State.{Agent, Revenue, State, no_revenue, no_stats, no_health}

-- The names in the table of `addTreasuryRevenue`.
pub data Source : Type 0 where
  audit_fees marketplace_fees report_fees slashing_proceeds sub_auction_fees : Source

-- An index past the table is `undefined || 'auditFees'`.
unfoldable pub source_key : ℕ → Source
source_key zero = audit_fees
source_key (suc zero) = marketplace_fees
source_key (suc (suc zero)) = report_fees
source_key (suc (suc (suc zero))) = slashing_proceeds
source_key (suc (suc (suc (suc zero)))) = sub_auction_fees
source_key (suc (suc (suc (suc (suc n))))) = audit_fees

unfoldable pub credit : Source → ℕ → Revenue → Revenue
credit audit_fees n r = record r { total = r.total + n; audit_fees = r.audit_fees + n }
credit marketplace_fees n r = record r {
  total = r.total + n;
  marketplace_fees = r.marketplace_fees + n;
}
credit report_fees n r = record r { total = r.total + n; report_fees = r.report_fees + n }
credit slashing_proceeds n r = record r {
  total = r.total + n;
  slashing_proceeds = r.slashing_proceeds + n;
}
credit sub_auction_fees n r = record r {
  total = r.total + n;
  sub_auction_fees = r.sub_auction_fees + n;
}

module _ {P : Type 0} where
  unfoldable pub set_connected : P → P → P → P → State P → State P
  set_connected config contracts hedera ethers s = record s {
    is_connected = true;
    connection_error = none;
    config = some config;
    contracts = some contracts;
    hedera_client = some hedera;
    ethers_provider = some ethers;
  }

  unfoldable pub set_connection_error : P → State P → State P
  set_connection_error e s = record s { is_connected = false; connection_error = some e }

  unfoldable pub toggle_mock_events : State P → State P
  toggle_mock_events s = record s { use_mock_events = not s.use_mock_events }

  unfoldable pub set_llm_provider_status : String → P → State P → State P
  set_llm_provider_status id status s = record s {
    llm_provider_status =
        Map.set id (take 100 (status ∷ (Map.get id s.llm_provider_status or_else [])))
          s.llm_provider_status;
  }

  unfoldable pub add_llm_inference_status : String → P → State P → State P
  add_llm_inference_status id status s = record s {
    llm_inference_status =
        Map.set id (take 100 (status ∷ (Map.get id s.llm_inference_status or_else [])))
          s.llm_inference_status;
  }

  unfoldable pub set_agent : String → Agent P → State P → State P
  set_agent addr profile s = record s { agents = Map.set addr profile s.agents }

  unfoldable pub set_agent_profile : String → P → State P → State P
  set_agent_profile addr profile s = record s {
    agent_profiles = Map.set addr profile s.agent_profiles;
  }

  unfoldable pub add_reputation_snapshot : String → P → State P → State P
  add_reputation_snapshot addr snapshot s = record s {
    reputation_history =
        Map.set addr
          (take_last 50 ((Map.get addr s.reputation_history or_else []) ++ snapshot ∷ []))
          s.reputation_history;
  }

  unfoldable pub set_contract_health : String → P → State P → State P
  set_contract_health addr h s = record s { contract_health = Map.set addr h s.contract_health }

  unfoldable pub add_slash_event : P → State P → State P
  add_slash_event slash s = record s { slash_events = take 50 (slash ∷ s.slash_events) }

  -- `Number(amount) || 0`: what is no number is `none`.
  unfoldable pub add_treasury_revenue : ℕ → Option ℕ → State P → State P
  unfolding source_key credit
  add_treasury_revenue source amount s = record s {
    revenue = credit (source_key source) (amount or_else 0) s.revenue;
  }

  unfoldable pub add_treasury_distribution : P → State P → State P
  add_treasury_distribution d s = record s {
    treasury_distributions = take 50 (d ∷ s.treasury_distributions);
  }

  unfoldable pub set_active_tab : String → State P → State P
  set_active_tab tab s = record s { active_tab = tab }

  unfoldable pub set_selected_agent : Option String → State P → State P
  set_selected_agent addr s = record s { selected_agent = addr }

  unfoldable pub set_selected_contract : Option String → State P → State P
  set_selected_contract addr s = record s { selected_contract = addr }

  unfoldable pub update_agent_stake : String → ℕ → State P → State P
  update_agent_stake addr total s = record s {
    agents =
        Map.set addr
          (elim (Map.get addr s.agents) [
            | none ↦ record { staked_amount = some total; body = none }
            | some a ↦ record a { staked_amount = some total }
          ])
          s.agents;
  }

  unfoldable pub add_stake_snapshot : String → P → State P → State P
  add_stake_snapshot addr snapshot s = record s {
    stake_history =
        Map.set addr (take_last 50 ((Map.get addr s.stake_history or_else []) ++ snapshot ∷ []))
          s.stake_history;
  }

  unfoldable pub add_hss_event : P → State P → State P
  add_hss_event ev s = record s { hss_events = take 500 (ev ∷ s.hss_events) }

  -- What is not named keeps its value: the session, the mock toggle, the tab and `hss_events`.
  unfoldable pub reset_all : Map P → State P → State P
  reset_all fields s = record s {
    is_connected = false;
    connection_error = none;
    discoveries = [];
    discoveries_by_address = [];
    active_jobs = [];
    job_terminal = [];
    bids = [];
    job_bid_status = [];
    llm_provider_status = [];
    llm_inference_status = [];
    agents = [];
    audit_log = [];
    report_metadata = [];
    winners = [];
    sub_jobs = [];
    sub_bids = [];
    parent_sub_jobs = [];
    data_listings = [];
    data_purchases = [];
    job_listings = [];
    settlements = [];
    job_settlements = [];
    guard_flows = [];
    event_index = [];
    flow_index = [];
    agent_profiles = [];
    reputation_history = [];
    contract_health = [];
    slash_events = [];
    treasury_distributions = [];
    stake_history = [];
    revenue = no_revenue;
    selected_agent = none;
    selected_contract = none;
    stats = no_stats;
    health = no_health fields;
  }
