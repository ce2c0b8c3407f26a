-- ===== src/Orchestrator/ActiveStatus/Evidence.antt =====
-- What stands behind an agent that `filterEligibleAgentsOnChain` of orchestrator/src/orchestrator.js
-- lets through.
use mathlib.Core.Bool.{false≢true}
use audit_guard.Prelude.{
  ℕ, zero, suc, ◌+◌, ◌≡◌, refl, String, Bool, true, false, Option, none, some, List, [], ◌∷◌, lower,
  ◌==◌, ◌||◌, not, if◌then◌else◌, is_empty, length, length-append, All, All-snoc, arith, Bool-cases,
  inl, inr, max, ◌∙◌, ap,
}
use audit_guard.Prelude.Map
use audit_guard.Orchestrator.Address.{normalize_address}
use audit_guard.Orchestrator.Errors.{is_transient_rpc}
use audit_guard.Orchestrator.ActiveStatus.{
  Config, Cached, Cache, Answer, is_active, throws, Status, World, on_answer, ask, is_fresh,
  cached_status, fall_back, conclude, check, status_of, Agent, missing_evm_address,
  active_check_unavailable, inactive_onchain, Sorted, sort_agent, filter_agent, filter_all,
  filter_eligible,
}

ask-answers :
    (answers : ℕ → Answer) (most left attempt : ℕ) (b : Bool)
    → ask answers most left attempt ≡ is_active b
    → (n : ℕ) × (answers n ≡ is_active b)
unfolding ask on_answer
ask-answers answers most zero attempt b e = cc
ask-answers answers most (suc left) attempt b e =
    by_answer (answers attempt) refl (ask-answers answers most left (attempt + 1) b) e
  where
    by_answer :
        (o : Answer)
        → answers attempt ≡ o
        → (ask answers most left (attempt + 1) ≡ is_active b → (n : ℕ) × (answers n ≡ is_active b))
        → on_answer most attempt (ask answers most left (attempt + 1)) o ≡ is_active b
        → (n : ℕ) × (answers n ≡ is_active b)
    by_answer (is_active c) f ih e = (attempt, f ∙ e)
    by_answer (throws x) f ih e = elim (Bool-cases (not (is_transient_rpc x) || attempt == most)) [
      | inl stop ↦ cc
      | inr go ↦ ih (rw go at e)
    ]

-- `Vouched` stands for the addresses, in lower case, which the chain has called active.
module _ (Vouched : String → Type 0) (config : Config) (closed : config.fail_open ≡ false) where
  abbrev pub IsBacked : String → Cached → Type 0
  IsBacked key c = c.active ≡ true → Vouched key

  abbrev pub IsTold : String → World → Type 0
  IsTold key w = (w.has_check ≡ true) × ((n : ℕ) → w.answers n ≡ is_active true → Vouched key)

  cached-Vouched :
      (key : String) (u : Bool) (r : Option String) (o : Option Cached) (cache : Cache)
      → Map.AllEntries IsBacked cache
      → Map.get key cache ≡ o
      → (cached_status u r o).active ≡ true
      → Vouched key
  unfolding cached_status
  cached-Vouched key u r none cache h f e = cc
  cached-Vouched key u r (some c) cache h f e = Map.get-AllEntries IsBacked key c cache h f e

  fall_back-Vouched :
      (key : String) (now_ms : ℕ) (cache : Cache) (x : String)
      → Map.AllEntries IsBacked cache
      → (fall_back config now_ms (Map.get key cache) x).active ≡ true
      → Vouched key
  unfolding fall_back
  fall_back-Vouched key now_ms cache x h e =
      elim (Bool-cases (is_fresh config.stale_fallback_ttl_ms now_ms (Map.get key cache))) [
        | inl usable ↦ cached-Vouched key _ _ (Map.get key cache) cache h refl (rw usable at e)
        | inr old ↦ absurd (false≢true (simp (old, closed) at e))
      ]

  abbrev IsVetted : String → Status × Cache → Type 0
  IsVetted key r = (r.0.active ≡ true → Vouched key) × Map.AllEntries IsBacked r.1

  conclude-IsVetted :
      (key : String) (now_ms : ℕ) (cache : Cache) (o : Answer)
      → Map.AllEntries IsBacked cache
      → (o ≡ is_active true → Vouched key)
      → IsVetted key (conclude config now_ms key (Map.get key cache) cache o)
  unfolding conclude
  conclude-IsVetted key now_ms cache (is_active b) h told =
      let yes : b ≡ true → Vouched key = λ e. told (ap is_active e) in
      (yes, Map.set-AllEntries IsBacked key _ cache yes h)
  conclude-IsVetted key now_ms cache (throws x) h told = (fall_back-Vouched key now_ms cache x h, h)

  check-IsVetted :
      (key : String) (w : World) (cache : Cache)
      → Map.AllEntries IsBacked cache
      → IsTold key w
      → IsVetted key (check config w key cache)
  unfolding check
  check-IsVetted key w cache h told =
      elim (Bool-cases (is_fresh config.cache_ttl_ms w.now_ms (Map.get key cache))) [
        | inl fresh ↦ simp fresh (cached-Vouched key _ _ (Map.get key cache) cache h refl, h)
        | inr old ↦
            let most = max 1 config.retries in
            simp (old, told.0)
              (conclude-IsVetted key w.now_ms cache (ask w.answers most most 1) h
                (λ e. let (n, f) = ask-answers w.answers most most 1 true e in told.1 n f))
      ]

module _ (Vouched : String → Type 0) (config : Config) (closed : config.fail_open ≡ false)
    (is_address : String → Bool) (world : Agent → World) where
  abbrev pub key_of : Agent → String
  key_of a = lower (normalize_address is_address a.evm_address)

  abbrev pub IsVouchedAgent : Agent → Type 0
  IsVouchedAgent a = Vouched (key_of a)

  -- What holds of a run of the filter: each agent that is let through is vouched for, so is what the
  -- cache calls active, and so many agents were sorted.
  abbrev pub IsSorted : ℕ → Sorted → Type 0
  IsSorted n r =
      All IsVouchedAgent r.eligible
      × Map.AllEntries (IsBacked Vouched config closed) r.cache
      × (length r.eligible + length r.excluded ≡ n)

  sort-IsSorted :
      (n : ℕ) (a : Agent) (s : Status) (r : Sorted)
      → (s.active ≡ true → IsVouchedAgent a)
      → IsSorted n r
      → IsSorted (suc n) (sort_agent a s r)
  unfolding sort_agent
  sort-IsSorted n a s r v h = elim (Bool-cases s.active) [
    | inl on ↦ simp on (
      All-snoc IsVouchedAgent a r.eligible h.0 (v on),
      h.1,
      omega (arith, length-append r.eligible (a ∷ []), h.2),
    )
    | inr off ↦ simp off (
      h.0,
      h.1,
      omega (
        arith,
        length-append r.excluded
            ((a, if s.unavailable then active_check_unavailable else inactive_onchain) ∷ []),
        h.2,
      ),
    )
  ]

  filter_agent-IsSorted :
      (n : ℕ) (a : Agent) (r : Sorted)
      → IsTold Vouched config closed (key_of a) (world a)
      → IsSorted n r
      → IsSorted (suc n) (filter_agent is_address config world r a)
  unfolding filter_agent status_of
  filter_agent-IsSorted n a r told h =
      elim (Bool-cases (is_empty (normalize_address is_address a.evm_address))) [
        | inl blank ↦
            simp blank (
              h.0,
              h.1,
              omega (arith, length-append r.excluded ((a, missing_evm_address) ∷ []), h.2),
            )
        | inr given ↦
            let c = check-IsVetted Vouched config closed (key_of a) (world a) r.cache h.1 told in
            let (s, cache) = check config (world a) (key_of a) r.cache in
            simp given (sort-IsSorted n a s (record r { cache = cache }) c.0 (h.0, c.1, h.2))
      ]

  filter_all-IsSorted :
      (n : ℕ) (agents : List Agent) (r : Sorted)
      → All (λ a. IsTold Vouched config closed (key_of a) (world a)) agents
      → IsSorted n r
      → IsSorted (n + length agents) (filter_all is_address config world agents r)
  unfolding filter_all
  filter_all-IsSorted n [] r told h = (h.0, h.1, omega (arith, h.2))
  filter_all-IsSorted n (a ∷ agents) r told h =
      let ih =
        filter_all-IsSorted (suc n) agents (filter_agent is_address config world r a) told.1
          (filter_agent-IsSorted n a r told.0 h) in
      (ih.0, ih.1, omega (arith, ih.2))

  -- Where the filter is on, does not fail open, and the client has the check: if all that the chain
  -- answers true to, in this run and in what the cache holds, is vouched for, then so is every agent
  -- that the filter lets through, whatever calls fail; each agent is let through or excluded; and the
  -- cache still holds only what is vouched for.
  pub filter_eligible-IsSorted :
      (agents : List Agent) (cache : Cache)
      → config.filter_enabled ≡ true
      → All (λ a. IsTold Vouched config closed (key_of a) (world a)) agents
      → Map.AllEntries (IsBacked Vouched config closed) cache
      → IsSorted (length agents) (filter_eligible is_address config world agents cache)
  unfolding filter_eligible
  filter_eligible-IsSorted agents cache on told h =
      let ih =
        filter_all-IsSorted 0 agents (record { eligible = []; excluded = []; cache = cache }) told
          (tt, h, omega arith) in
      simp on (ih.0, ih.1, omega (arith, ih.2))
