-- ===== src/Dashboard/Auctions.antt =====
-- The actions of the store on audit jobs, bids, sub-auctions, listings, purchases and settlements.
use audit_guard.Prelude.{
  ℕ, String, Bool, Option, none, some, List, [], ◌∷◌, ◌++◌, map, take, any, lower, truthy,
  same_text, ◌or_else◌, ◌&&◌, ◌===◌, if◌then◌else◌, if_both,
}
use mathlib.Core.Option
use audit_guard.Prelude.Map
use audit_guard.Prelude.Map.{Map}
use audit_guard.Dashboard.State.{
  Job, Terminal, BidStatus, SubJob, Listing, Purchase, Settlement, State,
}

-- `a ?? b ?? null`
unfoldable pub or_keep {ℓ} : {A : Type ℓ} → Option A → Option A → Option A
or_keep (some a) b = some a
or_keep none b = b

module _ {P : Type 0} where
  unfoldable pub set_job : String → Job P → State P → State P
  set_job id job s = record s { active_jobs = Map.set id job s.active_jobs }

  unfoldable pub end_job : Terminal → Job P → Job P
  unfolding or_keep
  end_job t job = record job {
    terminal_status = or_keep t.status job.terminal_status;
    ended_at = or_keep t.ended_at job.ended_at;
    terminal_tx_hash = or_keep t.tx_hash job.terminal_tx_hash;
  }

  unfoldable pub end_known : String → Terminal → Option (Job P) → Map (Job P) → Map (Job P)
  end_known key terminal none jobs = jobs
  end_known key terminal (some job) jobs = Map.set key (end_job terminal job) jobs

  unfoldable pub set_job_terminal : String → Terminal → State P → State P
  unfolding end_known
  set_job_terminal key terminal s = record s {
    job_terminal = Map.set key terminal s.job_terminal;
    active_jobs = end_known key terminal (Map.get key s.active_jobs) s.active_jobs;
  }

  unfoldable pub add_bid : String → P → State P → State P
  add_bid job_id bid s = record s {
    bids = Map.set job_id ((Map.get job_id s.bids or_else []) ++ bid ∷ []) s.bids;
  }

  unfoldable pub same_status : BidStatus P → BidStatus P → Bool
  same_status status item =
      same_text item.event_id status.event_id
      && same_text item.status status.status
      && same_text item.agent_id status.agent_id

  unfoldable pub push_status : String → BidStatus P → List (BidStatus P) → State P → State P
  push_status key status existing s = record s {
    job_bid_status = Map.set key (take 100 (status ∷ existing)) s.job_bid_status;
  }

  unfoldable pub push_status_by :
      Option String → String → BidStatus P → List (BidStatus P) → State P → State P
  unfolding same_status push_status
  push_status_by none key status existing s = push_status key status existing s
  push_status_by (some id) key status existing s =
      if any (same_status status) existing then s else push_status key status existing s

  unfoldable pub add_job_bid_status : String → BidStatus P → State P → State P
  unfolding push_status_by
  add_job_bid_status key status s =
      push_status_by (truthy status.event_id) key status (Map.get key s.job_bid_status or_else []) s

  unfoldable pub add_report_metadata : String → P → State P → State P
  add_report_metadata job_id meta s = record s {
    report_metadata = Map.set job_id meta s.report_metadata;
  }

  unfoldable pub set_winners : String → P → State P → State P
  set_winners job_id w s = record s { winners = Map.set job_id w s.winners }

  unfoldable pub add_sub_job : SubJob P → State P → State P
  add_sub_job j s = record s {
    sub_jobs = Map.set j.sub_job_id j.fields s.sub_jobs;
    parent_sub_jobs =
        Map.set j.parent_job_id
          ((Map.get j.parent_job_id s.parent_sub_jobs or_else []) ++ j.sub_job_id ∷ [])
          s.parent_sub_jobs;
  }

  unfoldable pub add_sub_bid : String → P → State P → State P
  add_sub_bid id bid s = record s {
    sub_bids = Map.set id ((Map.get id s.sub_bids or_else []) ++ bid ∷ []) s.sub_bids;
  }

  unfoldable pub update_sub_job_status : String → Map P → State P → State P
  update_sub_job_status id updates s = record s {
    sub_jobs = Map.set id (Map.merge (Map.get id s.sub_jobs or_else []) updates) s.sub_jobs;
  }

  unfoldable pub add_data_listing : Listing P → State P → State P
  add_data_listing l s = record s {
    data_listings = Map.set l.listing_id l s.data_listings;
    job_listings = elim (truthy l.parent_job_id) [
      | none ↦ s.job_listings
      | some job ↦
          Map.set job ((Map.get job s.job_listings or_else []) ++ l.listing_id ∷ []) s.job_listings
    ];
  }

  unfoldable pub add_data_purchase : Purchase P → State P → State P
  add_data_purchase p s = record s { data_purchases = take 100 (p ∷ s.data_purchases) }

  rate : String → Option String → ℕ → Purchase P → Purchase P
  rate listing buyer rating p =
      if p.listing_id === listing && same_text (Option.map lower p.buyer) (Option.map lower buyer)
      then record p { rating = some rating }
      else p

  unfoldable pub update_data_purchase_rating : String → Option String → ℕ → State P → State P
  unfolding rate
  update_data_purchase_rating listing buyer rating s = record s {
    data_purchases = map (rate listing buyer rating) s.data_purchases;
  }

  unfoldable pub add_settlement : Settlement P → State P → State P
  add_settlement x s = record s {
    settlements = Map.set x.settlement_id x s.settlements;
    job_settlements = Map.set x.job_id x.settlement_id s.job_settlements;
  }

  pub add_job_bid_status_cases {ℓ} :
      (Q : State P → Type ℓ) (k : String) (b : BidStatus P) (s : State P)
      → Q s
      → Q (push_status k b (Map.get k s.job_bid_status or_else []) s)
      → Q (add_job_bid_status k b s)
  unfolding add_job_bid_status
  add_job_bid_status_cases Q k b s kept pushed = go (truthy b.event_id)
    where
      existing : List (BidStatus P)
      existing = Map.get k s.job_bid_status or_else []

      go : (o : Option String) → Q (push_status_by o k b existing s)
      go none = pushed
      go (some id) = if_both Q (any (same_status b) existing) kept pushed
