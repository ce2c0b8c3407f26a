-- ===== src/Orchestrator/Bids.antt =====
-- `handleBidSubmitted` of orchestrator/src/orchestrator.js: the bids of a job that come over the
-- message topic. Amounts are in the smallest unit, where 0 stands for every amount that is not above 0.
use audit_guard.Prelude.{
  ℕ, ◌+◌, String, Bool, false, Option, none, some, List, [], ◌∷◌, ◌++◌, lower, ltb, ◌==◌, ◌===◌,
  ◌&&◌, ◌||◌, if◌then◌else◌, ◌or_else◌, is_empty, not,
}
use audit_guard.Prelude.Map
use audit_guard.Prelude.Map.{Map}
use audit_guard.Orchestrator.Address.{normalize_address}
use audit_guard.Orchestrator.Roster.{Agent, Roster}

pub record Bid : Type 0 where
  pub agent_id : String
  pub evm_address : Option String
  pub bid_amount : ℕ
  pub collateral : ℕ
  pub estimated_time_sec : ℕ
  pub reputation : ℕ
  pub timestamp : ℕ

-- The fields of a tracked job that the handler uses.
pub record Job : Type 0 where
  pub contract_address : Option String
  pub cancelled_on_chain : Bool
  pub terminal_on_chain : Bool
  pub report_published : Bool
  pub bidders : List Bid
  pub hcs_bid_count : ℕ

pub record Message : Type 0 where
  pub agent_id : String
  pub timestamp : Option ℕ
  pub job_id : String
  pub contract_address : Option String
  pub bid_amount : Option ℕ
  pub collateral : Option ℕ
  pub estimated_time_sec : Option ℕ
  pub reputation : Option ℕ
  pub evm_address : Option String

pub data Duplicate : Type 0 where
  no_duplicate duplicate_agent_id duplicate_evm_address : Duplicate

pub data Verdict : Type 0 where
  missing_job_id no_open_job address_mismatch low_stake invalid_amount : Verdict
  deduped : Duplicate → Verdict
  recorded : Job → Verdict

-- `contractAddress && job.contractAddress && …`
unfoldable pub mismatches : Option String → Option String → Bool
mismatches none b = false
mismatches (some a) none = false
mismatches (some a) (some b) = not (is_empty a) && not (is_empty b) && not (lower a === lower b)

unfoldable pub is_open : Job → Bool
is_open job = not (job.cancelled_on_chain || job.terminal_on_chain || job.report_published)

unfoldable pub is_understaked : ℕ → Option Agent → Bool
is_understaked min_stake none = false
is_understaked min_stake (some a) = ltb (a.stake or_else 0) min_stake

-- `bidAmount <= 0`, which is false of a missing amount.
unfoldable pub is_invalid_amount : Option ℕ → Bool
is_invalid_amount none = false
is_invalid_amount (some n) = n == 0

unfoldable pub agent_address : Option Agent → Option String
agent_address none = none
agent_address (some a) = a.evm_address

unfoldable pub first_of {ℓ} : {A : Type ℓ} → Option A → Option A → Option A
first_of (some a) b = some a
first_of none b = b

unfoldable pub agent_reputation : Option Agent → ℕ
agent_reputation none = 0
agent_reputation (some a) = a.reputation or_else 0

module _ (is_address : String → Bool) where
  -- Whether an earlier bid is from the same address, where both have a valid one.
  unfoldable pub same_address : String → Bid → Bool
  same_address resolved b =
      let other = normalize_address is_address b.evm_address in
      not (is_empty resolved) && not (is_empty other) && lower other === lower resolved

  -- The loop over the bids, which stops at the first that is a duplicate.
  unfoldable pub duplicate_reason : String → String → List Bid → Duplicate
  unfolding same_address
  duplicate_reason id resolved [] = no_duplicate
  duplicate_reason id resolved (b ∷ bs) =
      let rest = duplicate_reason id resolved bs in
      if b.agent_id === id
      then duplicate_agent_id
      else if same_address resolved b
      then duplicate_evm_address
      else rest

  unfoldable pub resolve_address : Message → Option Agent → String
  unfolding first_of agent_address
  resolve_address m agent =
      normalize_address is_address (first_of m.evm_address (agent_address agent))

  unfoldable pub new_bid : ℕ → Message → Option Agent → Bid
  unfolding resolve_address first_of agent_address agent_reputation
  new_bid now m agent = record {
    agent_id = m.agent_id;
    evm_address =
        if is_empty (resolve_address m agent)
        then first_of m.evm_address (agent_address agent)
        else some (resolve_address m agent);
    bid_amount = m.bid_amount or_else 0;
    collateral = m.collateral or_else 0;
    estimated_time_sec = m.estimated_time_sec or_else 0;
    reputation = m.reputation or_else agent_reputation agent;
    timestamp = m.timestamp or_else now;
  }

  unfoldable pub record_bid : ℕ → Message → Option Agent → Job → Duplicate → Verdict
  unfolding new_bid
  record_bid now m agent job no_duplicate = recorded (record job {
    bidders = job.bidders ++ new_bid now m agent ∷ [];
    hcs_bid_count = job.hcs_bid_count + 1;
  })
  record_bid now m agent job reason = deduped reason

  unfoldable pub judge_bid : ℕ → ℕ → Roster → Message → Option Job → Verdict
  unfolding is_open mismatches is_understaked is_invalid_amount duplicate_reason resolve_address
      record_bid
  judge_bid now min_stake roster m none = no_open_job
  judge_bid now min_stake roster m (some job) =
      let agent = Map.get m.agent_id roster in
      if not (is_open job)
      then no_open_job
      else if mismatches m.contract_address job.contract_address
      then address_mismatch
      else if is_understaked min_stake agent
      then low_stake
      else if is_invalid_amount m.bid_amount
      then invalid_amount
      else record_bid now m agent job
          (duplicate_reason m.agent_id (resolve_address m agent) job.bidders)

  -- `handleBidSubmitted` before it stores the job.
  unfoldable pub judge : ℕ → ℕ → Roster → Message → Map Job → Verdict
  unfolding judge_bid
  judge now min_stake roster m jobs =
      if is_empty m.job_id
      then missing_job_id
      else judge_bid now min_stake roster m (Map.get m.job_id jobs)

unfoldable pub store_verdict : String → Map Job → Verdict → Map Job
store_verdict id jobs (recorded job) = Map.set id job jobs
store_verdict id jobs _ = jobs

unfoldable pub handle_bid_submitted : (String → Bool) → ℕ → ℕ → Roster → Map Job → Message → Map Job
unfolding judge store_verdict
handle_bid_submitted is_address now min_stake roster jobs m =
    store_verdict m.job_id jobs (judge is_address now min_stake roster m jobs)
