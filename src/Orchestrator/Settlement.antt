-- ===== src/Orchestrator/Settlement.antt =====
-- `settleAll` of orchestrator/src/orchestrator.js: the findings of a job's winners are scored, the
-- pool is shared by score, and the settlement is paid on the chain.
use Prim.Native.String.{◌++◌ as append}
use mathlib.Core.List.{foldl}
use audit_guard.Prelude.{
  ℕ, ◌+◌, ◌*◌, ◌/◌, String, Bool, Option, none, some, List, [], ◌∷◌, map, lower, truthy, ltb, ◌==◌,
  ◌or_else◌, if◌then◌else◌, member,
}
use audit_guard.Prelude.Map
use audit_guard.Prelude.Map.{Map}
use audit_guard.Orchestrator.Roster.{Roster}

pub record Finding : Type 0 where
  pub agent_id : String
  pub evm_address : Option String
  pub findings_count : Option ℕ
  pub critical_count : Option ℕ

pub record Score : Type 0 where
  pub recipient : String
  pub agent_id : String
  pub score : ℕ
  pub critical : ℕ

-- `reportFee` and `paymentType` are 0 in every payment.
pub record Payment : Type 0 where
  pub recipient : String
  pub base_payment : ℕ
  pub bonus : ℕ
  pub description : String

pub record Config : Type 0 where
  pub total_pool : ℕ
  pub bonus_per_critical : ℕ

-- The roster's address of an agent.
unfoldable pub roster_address : Roster → String → Option String
roster_address roster id = elim (Map.get id roster) [ none ↦ none | some a ↦ a.evm_address ]

module _ (is_address : String → Bool) (roster : Roster) where
  unfoldable pub finding_address : Finding → Option String
  finding_address f = elim f.evm_address [
    | none ↦ roster_address roster f.agent_id
    | some a ↦ if is_address a then some a else roster_address roster f.agent_id
  ]

unfoldable pub add_score : String → Finding → Score → Score
add_score address f s = record s {
  score = s.score + ((f.findings_count or_else 0) + 2 * (f.critical_count or_else 0));
  critical = s.critical + (f.critical_count or_else 0);
}

unfoldable pub new_score : String → Finding → Score
new_score address f = record { recipient = address; agent_id = f.agent_id; score = 0; critical = 0 }

-- A finding counts if its address is one of the winners'.
unfoldable pub score_address : List String → Map Score → Finding → Option String → Map Score
unfolding add_score new_score
score_address winners scores f none = scores
score_address winners scores f (some address) =
    let key = lower address in
    if member key winners
    then Map.set key (add_score address f (Map.get key scores or_else new_score address f)) scores
    else scores

module _ (is_address : String → Bool) (roster : Roster) where
  unfoldable pub score_finding : List String → Map Score → Finding → Map Score
  unfolding score_address finding_address
  score_finding winners scores f =
      score_address winners scores f (truthy (finding_address is_address roster f))

  unfoldable pub contributor_scores : List String → List Finding → Map Score
  unfolding score_finding
  contributor_scores winners findings = foldl (score_finding winners) [] findings

-- `Array.from(contributorScores.values()).filter((f) => f.score > 0)`
unfoldable pub positive_scores : Map Score → List Score
positive_scores [] = []
positive_scores ((k, s) ∷ m) =
    let rest = positive_scores m in if ltb 0 s.score then s ∷ rest else rest

unfoldable pub sum_scores : List Score → ℕ
sum_scores [] = 0
sum_scores (s ∷ ss) = s.score + sum_scores ss

-- `sum || 1`
unfoldable pub or_one : ℕ → ℕ
or_one n = if n == 0 then 1 else n

unfoldable pub payment : Config → ℕ → Score → Payment
payment config total s = record {
  recipient = s.recipient;
  base_payment = config.total_pool * s.score / total;
  bonus = config.bonus_per_critical * s.critical;
  description = append "Report-settlement:" s.agent_id;
}

unfoldable pub payments_of : Config → List Score → List Payment
unfolding sum_scores or_one payment
payments_of config scores = map (payment config (or_one (sum_scores scores))) scores
