-- ===== src/Orchestrator/Eligibility.antt =====
-- Who is invited: the loops of the roster against a description of an eligible agent.
use mathlib.Core.List.{foldl, append-nil, append_assoc}
use mathlib.Core.Path.{ap₂}
use audit_guard.Prelude.{
  ℕ, ◌+◌, String, ◌≡◌, refl, Bool, true, false, Option, List, [], ◌∷◌, ◌++◌, map, not, keep, ltb,
  leb, ◌&&◌, ◌||◌, ◌or_else◌, if◌then◌else◌, arith, sym, ap, ◌∙◌,
}
use audit_guard.Orchestrator.Roster.{
  Limits, Agent, Roster, Reason, stale, low_stake, low_reputation, specialization_mismatch,
  Evaluation, Exclusion, is_stale, is_canonical, normalize_type, matches_type, when,
  reasons_against, includes_stale, sort_entry, note_stale, evaluate_entry, no_evaluation, evaluate,
}

abbrev no_reasons : List Reason → Bool
no_reasons [] = true
no_reasons (r ∷ rs) = false

no_reasons-when :
    (b c d e : Bool)
    → no_reasons (
        when b stale ++ when c low_stake ++ when d low_reputation ++ when e specialization_mismatch)
      ≡ (not b && not c && not d && not e)
no_reasons-when b c d e = ground arith

includes_stale-when :
    (b c d e : Bool)
    → includes_stale (
        when b stale ++ when c low_stake ++ when d low_reputation ++ when e specialization_mismatch)
      ≡ b
unfolding includes_stale
includes_stale-when b c d e = ground arith

eligible-note_stale :
    (id : String) (b : Bool) (e : Evaluation) → (note_stale id b e).eligible ≡ e.eligible
unfolding note_stale
eligible-note_stale id true e = refl
eligible-note_stale id false e = refl

excluded-note_stale :
    (id : String) (b : Bool) (e : Evaluation) → (note_stale id b e).excluded ≡ e.excluded
unfolding note_stale
excluded-note_stale id true e = refl
excluded-note_stale id false e = refl

stale-note_stale :
    (id : String) (b : Bool) (e : Evaluation)
    → (note_stale id b e).stale_ids ≡ e.stale_ids ++ (if b then id ∷ [] else [])
unfolding note_stale
stale-note_stale id true e = refl
stale-note_stale id false e = sym (append-nil _)

eligible-sort_entry :
    (id : String) (a : Agent) (rs : List Reason) (e : Evaluation)
    → (sort_entry id a rs e).eligible ≡ e.eligible ++ (if no_reasons rs then a ∷ [] else [])
unfolding sort_entry
eligible-sort_entry id a [] e = refl
eligible-sort_entry id a (r ∷ rs) e = sym (append-nil _)

stale-sort_entry :
    (id : String) (a : Agent) (rs : List Reason) (e : Evaluation)
    → (sort_entry id a rs e).stale_ids ≡ e.stale_ids
unfolding sort_entry
stale-sort_entry id a [] e = refl
stale-sort_entry id a (r ∷ rs) e = refl

-- The entry of an agent that is left out, with the reasons against it.
abbrev pub exclusion : String → Agent → List Reason → Exclusion
exclusion id a rs = record { agent_id = id; evm_address = a.evm_address; reasons = rs }

excluded-sort_entry :
    (id : String) (a : Agent) (rs : List Reason) (e : Evaluation)
    → (sort_entry id a rs e).excluded
      ≡ e.excluded ++ (if no_reasons rs then [] else exclusion id a rs ∷ [])
unfolding sort_entry
excluded-sort_entry id a [] e = sym (append-nil _)
excluded-sort_entry id a (r ∷ rs) e = refl

append-if {ℓ} :
    {A : Type ℓ} (xs : List A) (b : Bool) (x : A) (rest : List A)
    → (xs ++ (if b then x ∷ [] else [])) ++ rest ≡ xs ++ (if b then x ∷ rest else rest)
append-if xs true x rest = append_assoc xs (x ∷ []) rest
append-if xs false x rest = append_assoc xs [] rest

append-unless {ℓ} :
    {A : Type ℓ} (xs : List A) (b : Bool) (x : A) (rest : List A)
    → (xs ++ (if b then [] else x ∷ [])) ++ rest ≡ xs ++ (if b then rest else x ∷ rest)
append-unless xs true x rest = append_assoc xs [] rest
append-unless xs false x rest = append_assoc xs (x ∷ []) rest

abbrev pub second : String × Agent → Agent
second (id, a) = a

map-if :
    (b : Bool) (p : String × Agent) (rest : Roster)
    → map second (if b then p ∷ rest else rest)
      ≡ (if b then second p ∷ map second rest else map second rest)
map-if true p rest = refl
map-if false p rest = refl

module _ (limits : Limits) (now : ℕ) where
  -- The identifiers of the stale agents, in the order of the roster.
  abbrev pub stale_of : Roster → List String
  stale_of [] = []
  stale_of ((id, a) ∷ agents) =
      let rest = stale_of agents in if is_stale limits now a then id ∷ rest else rest

module _ (limits : Limits) (now : ℕ) (t : String) where
  -- Seen within the expiry, staked and reputed enough, and specialised in the type, if the type is
  -- one of the canonical ones and the agent names specialisations.
  abbrev pub qualifies : String × Agent → Bool
  qualifies (id, a) =
      leb now (a.last_seen + limits.liveness_expiry_ms)
      && leb limits.min_stake (a.stake or_else 0)
      && leb limits.min_reputation (a.reputation or_else 0)
      && (not (is_canonical t) || matches_type t a.specializations)

  -- The reasons which hold against an agent, each described by itself.
  abbrev pub reasons_for : String × Agent → List Reason
  reasons_for (id, a) =
      (if leb now (a.last_seen + limits.liveness_expiry_ms) then [] else stale ∷ [])
      ++ (if leb limits.min_stake (a.stake or_else 0) then [] else low_stake ∷ [])
      ++ (if leb limits.min_reputation (a.reputation or_else 0) then [] else low_reputation ∷ [])
      ++ (if not (is_canonical t) || matches_type t a.specializations
          then []
          else specialization_mismatch ∷ [])

  reasons-reasons_for :
      (id : String) (a : Agent) → reasons_against limits now t a ≡ reasons_for (id, a)
  unfolding reasons_against is_stale
  reasons-reasons_for id a = ground arith

  reasons-qualifies :
      (id : String) (a : Agent) → no_reasons (reasons_against limits now t a) ≡ qualifies (id, a)
  unfolding reasons_against is_stale
  reasons-qualifies id a =
      no_reasons-when (is_stale limits now a) (ltb (a.stake or_else 0) limits.min_stake)
        (ltb (a.reputation or_else 0) limits.min_reputation)
        (is_canonical t && not (matches_type t a.specializations))
      ∙ ground arith

  stale-reasons :
      (a : Agent) → includes_stale (reasons_against limits now t a) ≡ is_stale limits now a
  unfolding reasons_against
  stale-reasons a =
      includes_stale-when (is_stale limits now a) (ltb (a.stake or_else 0) limits.min_stake)
        (ltb (a.reputation or_else 0) limits.min_reputation)
        (is_canonical t && not (matches_type t a.specializations))

  entry_eligible :
      (e : Evaluation) (id : String) (a : Agent)
      → (evaluate_entry limits now t e (id, a)).eligible
        ≡ e.eligible ++ (if qualifies (id, a) then a ∷ [] else [])
  unfolding evaluate_entry
  entry_eligible e id a =
      let rs = reasons_against limits now t a in
      eligible-note_stale id (includes_stale rs) (sort_entry id a rs e)
      ∙ eligible-sort_entry id a rs e
      ∙ ap (λ (b : Bool). e.eligible ++ (if b then a ∷ [] else [])) (reasons-qualifies id a)

  entry_stale :
      (e : Evaluation) (id : String) (a : Agent)
      → (evaluate_entry limits now t e (id, a)).stale_ids
        ≡ e.stale_ids ++ (if is_stale limits now a then id ∷ [] else [])
  unfolding evaluate_entry
  entry_stale e id a =
      let rs = reasons_against limits now t a in
      stale-note_stale id (includes_stale rs) (sort_entry id a rs e)
      ∙ ap₂ (λ (ids : List String) (b : Bool). ids ++ (if b then id ∷ [] else []))
          (stale-sort_entry id a rs e) (stale-reasons a)

  -- Who does not qualify, with every reason against it, in the order of the roster.
  abbrev pub exclusions : Roster → List Exclusion
  exclusions [] = []
  exclusions ((id, a) ∷ agents) =
      let rest = exclusions agents in
      if qualifies (id, a) then rest else exclusion id a (reasons_for (id, a)) ∷ rest

  entry_excluded :
      (e : Evaluation) (id : String) (a : Agent)
      → (evaluate_entry limits now t e (id, a)).excluded
        ≡ e.excluded
          ++ (if qualifies (id, a) then [] else exclusion id a (reasons_for (id, a)) ∷ [])
  unfolding evaluate_entry
  entry_excluded e id a =
      let rs = reasons_against limits now t a in
      excluded-note_stale id (includes_stale rs) (sort_entry id a rs e)
      ∙ excluded-sort_entry id a rs e
      ∙ ap₂
          (λ (b : Bool) (qs : List Reason).
            e.excluded ++ (if b then [] else exclusion id a qs ∷ []))
          (reasons-qualifies id a) (reasons-reasons_for id a)

  loop_eligible :
      (e : Evaluation) (agents : Roster)
      → (foldl (evaluate_entry limits now t) e agents).eligible
        ≡ e.eligible ++ map second (keep qualifies agents)
  loop_eligible e [] = sym (append-nil _)
  loop_eligible e ((id, a) ∷ agents) =
      loop_eligible (evaluate_entry limits now t e (id, a)) agents
      ∙ ap (λ (as' : List Agent). as' ++ map second (keep qualifies agents)) (entry_eligible e id a)
      ∙ append-if e.eligible (qualifies (id, a)) a (map second (keep qualifies agents))
      ∙ ap (λ (as' : List Agent). e.eligible ++ as')
          (sym (map-if (qualifies (id, a)) (id, a) (keep qualifies agents)))

  pub loop_stale :
      (e : Evaluation) (agents : Roster)
      → (foldl (evaluate_entry limits now t) e agents).stale_ids
        ≡ e.stale_ids ++ stale_of limits now agents
  loop_stale e [] = sym (append-nil _)
  loop_stale e ((id, a) ∷ agents) =
      loop_stale (evaluate_entry limits now t e (id, a)) agents
      ∙ ap (λ (ids : List String). ids ++ stale_of limits now agents) (entry_stale e id a)
      ∙ append-if e.stale_ids (is_stale limits now a) id (stale_of limits now agents)

  loop_excluded :
      (e : Evaluation) (agents : Roster)
      → (foldl (evaluate_entry limits now t) e agents).excluded ≡ e.excluded ++ exclusions agents
  loop_excluded e [] = sym (append-nil _)
  loop_excluded e ((id, a) ∷ agents) =
      loop_excluded (evaluate_entry limits now t e (id, a)) agents
      ∙ ap (λ (xs : List Exclusion). xs ++ exclusions agents) (entry_excluded e id a)
      ∙ append-unless e.excluded (qualifies (id, a)) (exclusion id a (reasons_for (id, a)))
          (exclusions agents)

module _ (limits : Limits) (now : ℕ) (contract_type : Option String) (agents : Roster) where
  -- Exactly the agents are eligible that qualify for the normalised contract type, in the order of
  -- the roster: seen within the expiry, with the least stake and reputation, and specialised in the
  -- type if it is a canonical one. Exactly the others are excluded, in the order of the roster, each by
  -- its id and address with all the reasons against it.
  pub evaluate_lem :
      let e = evaluate limits now contract_type agents in
      (e.eligible ≡ map second (keep (qualifies limits now (normalize_type contract_type)) agents))
      × (e.excluded ≡ exclusions limits now (normalize_type contract_type) agents)
  unfolding evaluate
  evaluate_lem = (
    loop_eligible limits now (normalize_type contract_type) no_evaluation agents,
    loop_excluded limits now (normalize_type contract_type) no_evaluation agents,
  )
