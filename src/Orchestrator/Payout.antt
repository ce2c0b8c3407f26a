-- ===== src/Orchestrator/Payout.antt =====
-- The second half of `settleAll`, `maybeAlert`, `resolveReportAgentAddress` and `updateReputation`
-- (orchestrator/src/orchestrator.js). The chain's answers are an argument, and what the code sends
-- is a list, in order.
use audit_guard.Prelude.{
  ℕ, ◌+◌, ◌*◌, String, Bool, true, false, Option, none, some, List, [], ◌∷◌, map, lower, ltb, ◌==◌,
  if◌then◌else◌, ◌or_else◌, truthy, length, not, to_set,
}
use audit_guard.Orchestrator.Roster.{Roster}
use audit_guard.Orchestrator.Settlement.{
  Finding, Score, Payment, Config, contributor_scores, positive_scores, payments_of, roster_address,
}

-- The answers of the chain for one job. `none` and `false` are a call that throws.
pub record Chain : Type 0 where
  pub is_job_settled : Option Bool
  pub preview : List Payment → String → Option ℕ
  pub guard_balance : Option ℕ
  pub top_up_ok : Bool
  pub allowance_ok : Bool
  pub deposit_ok : Bool
  pub settle_ok : Bool

pub record Job : Type 0 where
  pub findings : List Finding
  pub winners : List String
  pub settled : Bool

-- What the orchestrator sends. `report` is the PAYMENT_SETTLED message.
pub data Call : Type 0 where
  top_up store_job : Call
  approve deposit : ℕ → Call
  settle : List Payment → String → Call
  report : List String → String → ℕ → Call

pub record Outcome : Type 0 where
  pub job : Job
  pub calls : List Call

unfoldable pub skipped : Job → Outcome
skipped job = record { job = job; calls = [] }

unfoldable pub recipients : List Payment → List String
recipients [] = []
recipients (p ∷ ps) = p.recipient ∷ recipients ps

unfoldable pub mark_settled : Job → Job
mark_settled job = record job { settled = true }

-- The last `try` block: each call is made if those before it went through.
unfoldable pub pay : Chain → Job → List Payment → String → ℕ → ℕ → Outcome
unfolding recipients mark_settled
pay chain job payments agent total winner_count =
    if not chain.top_up_ok
    then record { job = job; calls = top_up ∷ [] }
    else if not chain.allowance_ok
    then record { job = job; calls = top_up ∷ approve total ∷ [] }
    else if not chain.deposit_ok
    then record { job = job; calls = top_up ∷ approve total ∷ deposit total ∷ [] }
    else if not chain.settle_ok
    then record {
      job = job;
      calls = top_up ∷ approve total ∷ deposit total ∷ settle payments agent ∷ [];
    }
    else record {
      job = mark_settled job;
      calls =
          top_up
          ∷ approve total
          ∷ deposit total
          ∷ settle payments agent
          ∷ store_job
          ∷ report (recipients payments) agent winner_count
          ∷ [];
    }

-- A balance that could not be read does not stop the settlement.
unfoldable pub is_short : Option ℕ → ℕ → Bool
is_short none total = false
is_short (some balance) total = ltb balance total

unfoldable pub pay_total : Chain → Job → List Payment → String → ℕ → Option ℕ → Outcome
unfolding skipped is_short pay
pay_total chain job payments agent winner_count none = skipped job
pay_total chain job payments agent winner_count (some total) =
    if total == 0
    then skipped job
    else if is_short chain.guard_balance total
    then skipped job
    else pay chain job payments agent total winner_count

unfoldable pub winner_set : Job → List String
winner_set job = to_set (map lower job.winners)

module _ (is_address : String → Bool) (config : Config) (orchestrator_address : String) where
  unfoldable pub pay_scores : Chain → Job → Option String → ℕ → List Score → Outcome
  unfolding skipped pay_total
  pay_scores chain job report_agent winner_count [] = skipped job
  pay_scores chain job report_agent winner_count (s ∷ ss) =
      let payments = payments_of config (s ∷ ss) in
      let agent = truthy report_agent or_else orchestrator_address in
      if is_address agent
      then pay_total chain job payments agent winner_count (chain.preview payments agent)
      else skipped job

  unfoldable pub settle_winners : Roster → Chain → Job → Option String → List String → Outcome
  unfolding skipped pay_scores
  settle_winners roster chain job report_agent [] = skipped job
  settle_winners roster chain job report_agent (w ∷ ws) =
      pay_scores chain job report_agent (length (w ∷ ws))
        (positive_scores (contributor_scores is_address roster (w ∷ ws) job.findings))

  unfoldable pub settle_all : Roster → Chain → Job → Option String → Outcome
  unfolding skipped mark_settled settle_winners winner_set
  settle_all roster chain job report_agent =
      if length job.findings == 0
      then skipped job
      else if job.settled
      then skipped job
      else if chain.is_job_settled or_else false
      then record { job = mark_settled job; calls = store_job ∷ [] }
      else settle_winners roster chain job report_agent (winner_set job)

-- `maybeAlert`: the ALERT_FIRED message's job and count.
unfoldable pub maybe_alert : ℕ → String → ℕ → Option (String × ℕ)
maybe_alert threshold job_id critical_total =
    if ltb critical_total threshold then none else some (job_id, critical_total)

-- A REPORT_PUBLISHED message, as far as it names the report agent.
pub record ReportMessage : Type 0 where
  pub report_agent_address : Option String
  pub report_agent_evm_address : Option String
  pub agent_id : Option String

unfoldable pub first_some : Option String → Option String → Option String
first_some none b = b
first_some (some a) b = some a

module _ (is_address : String → Bool) where
  unfoldable pub address_or : Option String → String → String
  address_or none other = other
  address_or (some a) other = if is_address a then a else other

  unfoldable pub resolve_report_agent_address : Roster → String → ReportMessage → String
  unfolding roster_address first_some address_or
  resolve_report_agent_address roster orchestrator_address m =
      address_or (first_some m.report_agent_address m.report_agent_evm_address)
        (address_or (roster_address roster (m.agent_id or_else "")) orchestrator_address)

-- REPUTATION_UPDATED, and the basis points sent to the profile token.
pub data ReputationCall : Type 0 where
  publish_delta update_token : String → ℕ → ReputationCall

unfoldable pub update_reputation : List Finding → List ReputationCall
update_reputation [] = []
update_reputation (f ∷ fs) =
    let points = (f.findings_count or_else 0) + 2 * (f.critical_count or_else 0) in
    publish_delta f.agent_id points ∷ update_token f.agent_id (points * 100) ∷ update_reputation fs
