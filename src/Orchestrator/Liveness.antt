-- ===== src/Orchestrator/Liveness.antt =====
-- Which agents stay in the roster: both loops that take stale agents out take out the same.
use mathlib.Core.List.{foldl}
use audit_guard.Prelude.{
  ℕ, String, ◌≡◌, refl, Bool, true, false, Option, none, some, List, [], ◌∷◌, any, ◌===◌, ◌&&◌,
  ◌||◌, if◌then◌else◌, arith, eq_iff, ◌∙◌, sym, ap,
}
use audit_guard.Prelude.Map
use audit_guard.Prelude.Map.{Map, has, get-delete, delete-absent}
use audit_guard.Orchestrator.Roster.{
  Limits, Agent, Roster, is_stale, prune_entry, prune_stale, normalize_type, no_evaluation,
  evaluate, remove_known, evaluate_eligibility,
}
use audit_guard.Orchestrator.Eligibility.{stale_of, loop_stale}

remove_known-eq : (agents : Roster) (id : String) → remove_known agents id ≡ Map.delete id agents
unfolding remove_known has
remove_known-eq agents id = go (Map.get id agents) refl
  where
    go :
        (o : Option Agent)
        → Map.get id agents ≡ o
        → (if has id agents then Map.delete id agents else agents) ≡ Map.delete id agents
    go none e = rw (e, has) (sym (delete-absent id agents e))
    go (some a) e = rw (e, has)

module _ (limits : Limits) (now : ℕ) where
  prune-foldl :
      (m entries : Roster)
      → foldl (prune_entry limits now) m entries
        ≡ foldl remove_known m (stale_of limits now entries)
  unfolding prune_entry
  prune-foldl m [] = refl
  prune-foldl m ((id, a) ∷ entries) =
      go (is_stale limits now a) (prune-foldl (Map.delete id m) entries) (prune-foldl m entries)
    where
      rest : List String
      rest = stale_of limits now entries

      go :
          (b : Bool)
          → foldl (prune_entry limits now) (Map.delete id m) entries
            ≡ foldl remove_known (Map.delete id m) rest
          → foldl (prune_entry limits now) m entries ≡ foldl remove_known m rest
          → foldl (prune_entry limits now) (if b then Map.delete id m else m) entries
            ≡ foldl remove_known m (if b then id ∷ rest else rest)
      go true old kept =
          old ∙ ap (λ (m' : Roster). foldl remove_known m' rest) (sym (remove_known-eq m id))
      go false old kept = kept

  -- Evaluating the eligibility for any type of contract leaves the roster as `pruneStale` does.
  pub evaluate-prune :
      (contract_type : Option String) (agents : Roster)
      → (evaluate_eligibility limits now contract_type agents).1 ≡ prune_stale limits now agents
  unfolding evaluate_eligibility prune_stale evaluate
  evaluate-prune contract_type agents =
      ap (foldl remove_known agents)
        (loop_stale limits now (normalize_type contract_type) no_evaluation agents)
      ∙ sym (prune-foldl agents agents)

  abbrev pub fresh : Option Agent → Option Agent
  fresh none = none
  fresh (some a) = if is_stale limits now a then none else some a

  -- The entry of a stale agent with this identifier.
  abbrev stale_entry : String → String × Agent → Bool
  stale_entry id (j, a) = is_stale limits now a && j === id

  get-prune :
      (id : String) (m entries : Roster)
      → Map.get id (foldl (prune_entry limits now) m entries)
        ≡ (if any (stale_entry id) entries then none else Map.get id m)
  unfolding prune_entry
  get-prune id m [] = refl
  get-prune id m ((j, a) ∷ entries) =
      go (is_stale limits now a) (get-prune id (Map.delete j m) entries) (get-prune id m entries)
    where
      go :
          (b : Bool)
          → Map.get id (foldl (prune_entry limits now) (Map.delete j m) entries)
            ≡ (if any (stale_entry id) entries then none else Map.get id (Map.delete j m))
          → Map.get id (foldl (prune_entry limits now) m entries)
            ≡ (if any (stale_entry id) entries then none else Map.get id m)
          → Map.get id (foldl (prune_entry limits now) (if b then Map.delete j m else m) entries)
            ≡ (if b && j === id || any (stale_entry id) entries then none else Map.get id m)
      go true old kept = ground (arith, get-delete j id m)
      go false old kept = kept

  absent_entry :
      (id : String) (agents : Roster) → has id agents ≡ false → any (stale_entry id) agents ≡ false
  unfolding has Map.get
  absent_entry id [] h = refl
  absent_entry id ((j, a) ∷ agents) h = ground (arith, absent_entry id agents)

  stale-fresh :
      (id : String) (agents : Roster)
      → Map.IsUnique agents
      → (if any (stale_entry id) agents then none else Map.get id agents)
        ≡ fresh (Map.get id agents)
  unfolding Map.get
  stale-fresh id [] h = refl
  stale-fresh id ((j, a) ∷ agents) h =
      ground (arith, eq_iff j id, absent_entry j agents, h.0, stale-fresh id agents h.1)

  -- In a roster with no key twice, pruning takes out every stale agent and no other.
  pub get-prune_stale :
      (id : String) (agents : Roster)
      → Map.IsUnique agents
      → Map.get id (prune_stale limits now agents) ≡ fresh (Map.get id agents)
  unfolding prune_stale
  get-prune_stale id agents h = get-prune id agents agents ∙ stale-fresh id agents h
