-- ===== src/Orchestrator/Reconcile/Cases.antt =====
-- The ways in which a turn of the loop of `reconcileExpiredActiveAuctions` of
-- orchestrator/src/orchestrator.js ends, each with what the code has tested.
use audit_guard.Prelude.{
  ℕ, ◌<◌, ◌≤◌, ◌≡◌, refl, String, Bool, true, false, Option, none, some, ltb, leb, ◌||◌, ◌or_else◌,
  Bool-cases, inl, inr, arith,
}
use audit_guard.Prelude.Map
use audit_guard.Orchestrator.Closing.{Job}
use audit_guard.Orchestrator.Reconcile.{
  Limits, World, Pass, ChainJob, is_over, is_open, is_expired, cool, uncool, mark_skipped,
  count_select, count_deferred, try_close, on_bids, on_chain, visit, cooled_until,
}

module _ (limits : Limits) (now_ms : ℕ) (world : String → World) where
  -- The loop does not skip the key: the job is not over and not in its cooldown.
  abbrev pub is_skipped : String → Pass → Bool
  is_skipped key p =
      is_over (Map.get key p.state.closing.jobs)
      || ltb now_ms (Map.get key p.state.cooldown or_else 0)

  -- The key is looked at, open on the chain, and past its deadline.
  pub record IsDue (key : String) (p : Pass) : Type 0 where
    pub looked_at : is_skipped key p ≡ false
    pub chain : ChainJob
    pub on_chain : (world key).chain_job ≡ some chain
    pub open_there : is_open chain ≡ true
    pub expired : is_expired now_ms chain ≡ true

  pub data Visited (key : String) (p : Pass) : Pass → Type 0 where
    skips : Visited key p p
    cools : Visited key p (cool (cooled_until limits now_ms world) key p)
    marks : (o : Option Job) → Visited key p (mark_skipped key (world key).at o p)
    defers :
        limits.max_selects ≤ p.selects
        → Visited key p
            (count_deferred limits now_ms world (cool (cooled_until limits now_ms world) key p))
    starts :
        (n : ℕ)
        → IsDue key p
        → (world key).bids ≡ some n
        → 0 < n
        → p.selects < limits.max_selects
        → Visited key p (uncool key (count_select limits now_ms world key n p))
    shuts :
        IsDue key p
        → (world key).bids ≡ some 0
        → Visited key p (try_close limits now_ms world key p)

  bids-Visited :
      (key : String) (o : Option ℕ) (p : Pass)
      → IsDue key p
      → (world key).bids ≡ o
      → Visited key p (on_bids limits now_ms world key o p)
  unfolding on_bids
  bids-Visited key none p due e = cools
  bids-Visited key (some n) p due e = elim (Bool-cases (ltb 0 n)) [
    | inl more ↦ elim (Bool-cases (leb limits.max_selects p.selects)) [
      | inl full ↦ simp (more, full) (defers (ground arith))
      | inr free ↦ simp (more, free) (starts n due e (ground arith) (ground arith))
    ]
    | inr zero ↦ simp zero (shuts due (ground (arith, e)))
  ]

  chain-Visited :
      (key : String) (o : Option ChainJob) (p : Pass)
      → is_skipped key p ≡ false
      → (world key).chain_job ≡ o
      → Visited key p (on_chain limits now_ms world key o p)
  unfolding on_chain
  chain-Visited key none p seen e = cools
  chain-Visited key (some chain) p seen e = elim (Bool-cases (is_open chain)) [
    | inl opens ↦ elim (Bool-cases (is_expired now_ms chain)) [
      | inl late ↦
          simp (opens, late)
            (bids-Visited key (world key).bids p
              (record {
                looked_at = seen;
                chain = chain;
                on_chain = e;
                open_there = opens;
                expired = late;
              })
              refl)
      | inr early ↦ simp (opens, early) skips
    ]
    | inr shut ↦ simp shut (marks (Map.get key p.state.closing.jobs))
  ]

  pub visit-Visited : (key : String) (p : Pass) → Visited key p (visit limits now_ms world key p)
  unfolding visit
  visit-Visited key p = elim (Bool-cases (is_skipped key p)) [
    | inl skip ↦ simp skip skips
    | inr seen ↦ simp seen (chain-Visited key (world key).chain_job p seen refl)
  ]
