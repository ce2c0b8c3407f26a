-- ===== src/Dashboard/Dispatch.antt =====
-- The actions that the store exports, as data, and what a sequence of them makes of a state.
use audit_guard.Prelude.{ℕ, String, Option, List, [], ◌∷◌}
use audit_guard.Prelude.Map.{Map}
use audit_guard.Dashboard.State.{
  Discovery, Entry, Job, Terminal, BidStatus, SubJob, Listing, Purchase, Settlement, Agent, Patch,
  State,
}
use audit_guard.Dashboard.Feed
use audit_guard.Dashboard.Auctions
use audit_guard.Dashboard.Agents

pub data Action (P : Type 0) : Type 0 where
  connect : P → P → P → P → Action P
  fail_connection : P → Action P
  toggle_mock : Action P
  discover : Discovery P → Action P
  put_job : String → Job P → Action P
  end_job : String → Terminal → Action P
  bid : String → P → Action P
  bid_status : String → BidStatus P → Action P
  llm_provider : String → P → Action P
  llm_inference : String → P → Action P
  agent : String → Agent P → Action P
  log_entry : Entry P → Action P
  event : Entry P → Action P
  report_metadata : String → P → Action P
  winners : String → P → Action P
  sub_job : SubJob P → Action P
  sub_bid : String → P → Action P
  sub_job_status : String → Map P → Action P
  listing : Listing P → Action P
  purchase : Purchase P → Action P
  purchase_rating : String → Option String → ℕ → Action P
  settlement : Settlement P → Action P
  guard_flow : Entry P → Action P
  flow : Entry P → Action P
  ingestion_health : Patch P → Action P
  stat : String → ℕ → Action P
  agent_profile : String → P → Action P
  reputation : String → P → Action P
  contract_health : String → P → Action P
  slash : P → Action P
  revenue : ℕ → Option ℕ → Action P
  distribution : P → Action P
  tab : String → Action P
  select_agent : Option String → Action P
  select_contract : Option String → Action P
  agent_stake : String → ℕ → Action P
  stake : String → P → Action P
  hss_event : P → Action P
  reset : Map P → Action P

module _ {P : Type 0} where
  unfoldable pub dispatch : Action P → State P → State P
  unfolding Agents.set_connected Agents.set_connection_error Agents.toggle_mock_events
      Feed.add_discovery Auctions.set_job Auctions.set_job_terminal Auctions.add_bid
      Auctions.add_job_bid_status Agents.set_llm_provider_status Agents.add_llm_inference_status
      Agents.set_agent Feed.add_log_entry Feed.upsert_event Auctions.add_report_metadata
      Auctions.set_winners Auctions.add_sub_job Auctions.add_sub_bid Auctions.update_sub_job_status
      Auctions.add_data_listing Auctions.add_data_purchase Auctions.update_data_purchase_rating
      Auctions.add_settlement Feed.add_guard_flow Feed.upsert_guard_flow Feed.set_ingestion_health
      Feed.increment_stat Agents.set_agent_profile Agents.add_reputation_snapshot
      Agents.set_contract_health Agents.add_slash_event Agents.add_treasury_revenue
      Agents.add_treasury_distribution Agents.set_active_tab Agents.set_selected_agent
      Agents.set_selected_contract Agents.update_agent_stake Agents.add_stake_snapshot
      Agents.add_hss_event Agents.reset_all
  dispatch (connect a b c d) s = Agents.set_connected a b c d s
  dispatch (fail_connection e) s = Agents.set_connection_error e s
  dispatch toggle_mock s = Agents.toggle_mock_events s
  dispatch (discover d) s = Feed.add_discovery d s
  dispatch (put_job id j) s = Auctions.set_job id j s
  dispatch (end_job id t) s = Auctions.set_job_terminal id t s
  dispatch (bid id b) s = Auctions.add_bid id b s
  dispatch (bid_status id b) s = Auctions.add_job_bid_status id b s
  dispatch (llm_provider id x) s = Agents.set_llm_provider_status id x s
  dispatch (llm_inference id x) s = Agents.add_llm_inference_status id x s
  dispatch (agent addr a) s = Agents.set_agent addr a s
  dispatch (log_entry e) s = Feed.add_log_entry e s
  dispatch (event e) s = (Feed.upsert_event e s).0
  dispatch (report_metadata id m) s = Auctions.add_report_metadata id m s
  dispatch (winners id w) s = Auctions.set_winners id w s
  dispatch (sub_job j) s = Auctions.add_sub_job j s
  dispatch (sub_bid id b) s = Auctions.add_sub_bid id b s
  dispatch (sub_job_status id u) s = Auctions.update_sub_job_status id u s
  dispatch (listing l) s = Auctions.add_data_listing l s
  dispatch (purchase p) s = Auctions.add_data_purchase p s
  dispatch (purchase_rating l b r) s = Auctions.update_data_purchase_rating l b r s
  dispatch (settlement x) s = Auctions.add_settlement x s
  dispatch (guard_flow f) s = Feed.add_guard_flow f s
  dispatch (flow f) s = (Feed.upsert_guard_flow f s).0
  dispatch (ingestion_health p) s = Feed.set_ingestion_health p s
  dispatch (stat k n) s = Feed.increment_stat k n s
  dispatch (agent_profile a p) s = Agents.set_agent_profile a p s
  dispatch (reputation a x) s = Agents.add_reputation_snapshot a x s
  dispatch (contract_health a x) s = Agents.set_contract_health a x s
  dispatch (slash x) s = Agents.add_slash_event x s
  dispatch (revenue k n) s = Agents.add_treasury_revenue k n s
  dispatch (distribution d) s = Agents.add_treasury_distribution d s
  dispatch (tab t) s = Agents.set_active_tab t s
  dispatch (select_agent a) s = Agents.set_selected_agent a s
  dispatch (select_contract c) s = Agents.set_selected_contract c s
  dispatch (agent_stake a n) s = Agents.update_agent_stake a n s
  dispatch (stake a x) s = Agents.add_stake_snapshot a x s
  dispatch (hss_event e) s = Agents.add_hss_event e s
  dispatch (reset fields) s = Agents.reset_all fields s

  unfoldable pub run : List (Action P) → State P → State P
  run [] s = s
  run (a ∷ actions) s = run actions (dispatch a s)

  -- What each action keeps, every sequence keeps.
  pub run_induction {ℓ} :
      (Q : State P → Type ℓ)
      → ((a : Action P) (s : State P) → Q s → Q (dispatch a s))
      → (actions : List (Action P)) (s : State P) → Q s
      → Q (run actions s)
  unfolding run
  run_induction Q step [] s h = h
  run_induction Q step (a ∷ actions) s h = run_induction Q step actions (dispatch a s) (step a s h)
