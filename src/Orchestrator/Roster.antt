-- ===== src/Orchestrator/Roster.antt =====
-- The agents that the orchestrator knows (orchestrator/src/roster.js). Amounts are in the smallest
-- unit of their token, and times in milliseconds.
use mathlib.Core.List.{foldl}
use audit_guard.Prelude.{
  ℕ, ◌+◌, String, Bool, true, false, Option, none, some, List, [], ◌∷◌, ◌++◌, map, not, lower, trim,
  is_empty, ltb, ◌&&◌, ◌||◌, ◌or_else◌, if◌then◌else◌, member, keep,
}
use audit_guard.Prelude.Map
use audit_guard.Prelude.Map.{Map}

-- The constants of config.js that the roster reads.
pub record Limits : Type 0 where
  pub liveness_expiry_ms : ℕ
  pub min_stake : ℕ
  pub min_reputation : ℕ

pub record Agent : Type 0 where
  pub agent_id : String
  pub evm_address : Option String
  pub specializations : List String
  pub stake : Option ℕ
  pub reputation : Option ℕ
  pub endpoint : Option String
  pub tier : String
  pub last_seen : ℕ

-- The argument of `upsert`. `none` is a missing array.
pub record Registration : Type 0 where
  pub agent_id : String
  pub evm_address : Option String
  pub specializations : Option (List String)
  pub stake : Option ℕ
  pub reputation : Option ℕ
  pub endpoint : Option String

abbrev pub Roster : Type 0
Roster = Map Agent

pub data Reason : Type 0 where
  stale low_stake low_reputation specialization_mismatch : Reason

pub record Exclusion : Type 0 where
  pub agent_id : String
  pub evm_address : Option String
  pub reasons : List Reason

pub record Evaluation : Type 0 where
  pub eligible : List Agent
  pub excluded : List Exclusion
  pub stale_ids : List String

normalize_specializations : List String → List String
normalize_specializations values = keep (λ s. not (is_empty s)) (map (λ s. lower (trim s)) values)

known_specializations : Option Agent → List String
known_specializations none = []
known_specializations (some a) = a.specializations

specializations_of : Option (List String) → Option Agent → List String
unfolding normalize_specializations known_specializations
specializations_of (some (s ∷ ss)) existing = normalize_specializations (s ∷ ss)
specializations_of _ existing = known_specializations existing

tier_of : Option Agent → String
tier_of none = "COMMODITY"
tier_of (some a) = a.tier

unfoldable pub merge : ℕ → Option Agent → Registration → Agent
unfolding specializations_of tier_of
merge now existing r = record {
  agent_id = r.agent_id;
  evm_address = r.evm_address;
  specializations = specializations_of r.specializations existing;
  stake = r.stake;
  reputation = r.reputation;
  endpoint = r.endpoint;
  tier = tier_of existing;
  last_seen = now;
}

unfoldable pub upsert : ℕ → Registration → Roster → Roster
upsert now r agents = Map.set r.agent_id (merge now (Map.get r.agent_id agents) r) agents

seen_at : ℕ → String → Option Agent → Roster → Roster
seen_at now id none agents = agents
seen_at now id (some a) agents = Map.set id (record a { last_seen = now }) agents

unfoldable pub record_pong : ℕ → String → Roster → Roster
unfolding seen_at
record_pong now id agents = seen_at now id (Map.get id agents) agents

-- `lastSeen < now - livenessExpiryMs`, with no number below 0.
unfoldable pub is_stale : Limits → ℕ → Agent → Bool
is_stale limits now a = ltb (a.last_seen + limits.liveness_expiry_ms) now

unfoldable pub prune_entry : Limits → ℕ → Roster → String × Agent → Roster
unfolding is_stale
prune_entry limits now agents (id, a) =
    if is_stale limits now a then Map.delete id agents else agents

unfoldable pub prune_stale : Limits → ℕ → Roster → Roster
unfolding prune_entry
prune_stale limits now agents = foldl (prune_entry limits now) agents agents

abbrev pub canonical_types : List String
canonical_types =
    "lending" ∷ "dex" ∷ "staking" ∷ "bridge" ∷ "vault" ∷ "derivatives" ∷ "oracle" ∷ "governance"
    ∷ "nft" ∷ []

unfoldable pub is_canonical : String → Bool
is_canonical t = member t canonical_types

-- The type as it is compared; what is no text is the empty type.
unfoldable pub normalize_type : Option String → String
normalize_type none = ""
normalize_type (some t) = lower (trim t)

unfoldable pub matches_type : String → List String → Bool
matches_type t [] = true
matches_type t (s ∷ ss) = member t (s ∷ ss) || member "any" (s ∷ ss)

abbrev pub when : Bool → Reason → List Reason
when true r = r ∷ []
when false r = []

unfoldable pub reasons_against : Limits → ℕ → String → Agent → List Reason
unfolding is_stale matches_type
reasons_against limits now t a =
    when (is_stale limits now a) stale
    ++ when (ltb (a.stake or_else 0) limits.min_stake) low_stake
    ++ when (ltb (a.reputation or_else 0) limits.min_reputation) low_reputation
    ++ when (is_canonical t && not (matches_type t a.specializations)) specialization_mismatch

-- The loop over the roster: who is eligible, who is not and why, and who is stale.
unfoldable pub sort_entry : String → Agent → List Reason → Evaluation → Evaluation
sort_entry id a [] e = record e { eligible = e.eligible ++ a ∷ [] }
sort_entry id a (r ∷ rs) e = record e {
  excluded =
      e.excluded ++ record { agent_id = id; evm_address = a.evm_address; reasons = r ∷ rs } ∷ [];
}

-- `reasons.includes("stale")`
unfoldable pub includes_stale : List Reason → Bool
includes_stale [] = false
includes_stale (stale ∷ rs) = true
includes_stale (_ ∷ rs) = includes_stale rs

unfoldable pub note_stale : String → Bool → Evaluation → Evaluation
note_stale id true e = record e { stale_ids = e.stale_ids ++ id ∷ [] }
note_stale id false e = e

unfoldable pub evaluate_entry : Limits → ℕ → String → Evaluation → String × Agent → Evaluation
unfolding sort_entry note_stale includes_stale
evaluate_entry limits now t e (id, a) =
    let reasons = reasons_against limits now t a in
    note_stale id (includes_stale reasons) (sort_entry id a reasons e)

abbrev pub no_evaluation : Evaluation
no_evaluation = record { eligible = []; excluded = []; stale_ids = [] }

unfoldable pub evaluate : Limits → ℕ → Option String → Roster → Evaluation
unfolding normalize_type
evaluate limits now contract_type agents =
    foldl (evaluate_entry limits now (normalize_type contract_type)) no_evaluation agents

unfoldable pub remove_known : Roster → String → Roster
remove_known agents id = if Map.has id agents then Map.delete id agents else agents

-- The evaluation, and the roster with the stale agents taken out.
unfoldable pub evaluate_eligibility : Limits → ℕ → Option String → Roster → Evaluation × Roster
unfolding evaluate remove_known
evaluate_eligibility limits now contract_type agents =
    let e = evaluate limits now contract_type agents in (e, foldl remove_known agents e.stale_ids)

unfoldable pub eligible_for : Limits → ℕ → Option String → Roster → List Agent
unfolding evaluate_eligibility
eligible_for limits now contract_type agents =
    (evaluate_eligibility limits now contract_type agents).0.eligible
