-- ===== src/Orchestrator/Rearm/Timers.antt =====
-- Which timers the start of orchestrator/src/orchestrator.js sets again.
use audit_guard.Prelude.{
  ℕ, ◌+◌, ◌-◌, ◌*◌, ◌/◌, ◌<◌, ◌≡◌, refl, sym, String, true, false, Option, none, some, leb, ltb,
  ◌==◌, ◌===◌, eq_iff, if◌then◌else◌, ◌∙◌, inl, inr, ◌⊎◌, Bool-cases, arith,
}
use mathlib.Core.Path.{ap}
use audit_guard.Prelude.Map
use audit_guard.Orchestrator.Hydration.{ChainJob}
use audit_guard.Orchestrator.Readiness.{
  Timer, schedule, clear_timer, delay_ms, timer_ms, has_deadline,
}
use audit_guard.Orchestrator.Rearm.{
  Pass, Config, World, Verdict, leave, expired, arm, judge_deadline, judge_status, judge,
  restore_job, arm_job, follow,
}

module _ (config : Config) (world : World) where
  -- The chain has the job as open, and its deadline is to come.
  abbrev pub IsOpen : String → ℕ → Type 0
  IsOpen k d =
      (chain : ChainJob) × (world.chain_job k ≡ some (some chain))
      × (chain.status ≡ some 0)
      × (chain.auction_deadline ≡ some d)
      × (world.now_ms / 1000 < d)

  -- When the delay to the deadline and the grace time ends, as far as a timer can wait: 1 ms for a
  -- delay that is 0 or does not fit 31 bits.
  abbrev pub timer_at : String → ℕ → Timer
  timer_at k d = record {
    fires_at = world.clock_ms k + timer_ms ((d * 1000 + config.timing.grace_ms) - world.clock_ms k);
    trigger_path = "startup_rearm";
  }

  abbrev pub timer : String → Pass → Option Timer
  timer k p = Map.get k p.state.tracked.timers

  -- What a verdict says.
  abbrev pub Says : Option (Option ChainJob) → Verdict → Type 0
  Says o (arm chain d) =
      (o ≡ some (some chain))
      × (chain.status ≡ some 0)
      × (chain.auction_deadline ≡ some d)
      × (world.now_ms / 1000 < d)
  Says o _ = Unit

  deadline-Says :
      (d : Option ℕ) (chain : ChainJob)
      → chain.status ≡ some 0
      → chain.auction_deadline ≡ d
      → Says (some (some chain)) (judge_deadline (world.now_ms / 1000) chain d)
  unfolding judge_deadline
  deadline-Says none chain opens e = tt
  deadline-Says (some d) chain opens e = elim (Bool-cases (d == 0)) [
    | inl unset ↦ simp unset tt
    | inr set ↦ elim (Bool-cases (leb d (world.now_ms / 1000))) [
      | inl over ↦ simp (set, over) tt
      | inr later ↦ simp (set, later) (refl, opens, e, ground (arith, later))
    ]
  ]

  status-Says :
      (n : Option ℕ) (chain : ChainJob)
      → chain.status ≡ n
      → Says (some (some chain)) (judge_status (world.now_ms / 1000) chain n)
  unfolding judge_status
  status-Says none chain e = tt
  status-Says (some n) chain e = elim (Bool-cases (n == 0)) [
    | inl unset ↦
        let is_zero : n ≡ 0 = ground (arith, unset) in
        simp unset (deadline-Says chain.auction_deadline chain (e ∙ ap some is_zero) refl)
    | inr other ↦ simp other tt
  ]

  pub judge-Says : (o : Option (Option ChainJob)) → Says o (judge (world.now_ms / 1000) o)
  unfolding judge
  judge-Says none = tt
  judge-Says (some none) = tt
  judge-Says (some (some chain)) = status-Says chain.status chain refl

  later-judge_deadline :
      (chain : ChainJob) (d : ℕ)
      → world.now_ms / 1000 < d
      → judge_deadline (world.now_ms / 1000) chain (some d) ≡ arm chain d
  unfolding judge_deadline
  later-judge_deadline chain d later =
      let set : (d == 0) ≡ false = ground (arith, later) in
      let ahead : leb d (world.now_ms / 1000) ≡ false = ground (arith, later) in
      simp (set, ahead) refl

  pub open-judge :
      (k : String) (d : ℕ)
      → IsOpen k d
      → (chain : ChainJob) × (judge (world.now_ms / 1000) (world.chain_job k) ≡ arm chain d)
  unfolding judge judge_status
  open-judge k d (chain, there, opens, ends, later) = (
    chain,
    ap (judge (world.now_ms / 1000)) there
        ∙ ap (judge_status (world.now_ms / 1000) chain) opens
        ∙ ap (judge_deadline (world.now_ms / 1000) chain) ends
        ∙ later-judge_deadline chain d later,
  )

  above-delay_ms :
      (key : String) (d : ℕ)
      → 0 < d
      → delay_ms config.timing (world.clock_ms key) (some d)
        ≡ (d * 1000 + config.timing.grace_ms) - world.clock_ms key
  unfolding delay_ms has_deadline
  above-delay_ms key d above = let there : ltb 0 d ≡ true = ground (arith, above) in simp there refl

  pub arm-timer :
      (key k : String) (chain : ChainJob) (d : ℕ) (p : Pass)
      → 0 < d
      → timer k (follow config world key (arm chain d) p)
        ≡ (if key === k then some (timer_at key d) else timer k p)
  unfolding follow arm_job restore_job schedule clear_timer
  arm-timer key k chain d p above = elim (Bool-cases (key === k)) [
    | inl same ↦ simp (Map.get-set, same, above-delay_ms key d above) refl
    | inr other ↦ simp (Map.get-set, Map.get-delete, other) refl
  ]

  -- The timer of the key is the one of `o`, or the job is open and has a new timer.
  abbrev pub IsSound : String → Option Timer → Pass → Type 0
  IsSound k o p = (timer k p ≡ o) ⊎ ((d : ℕ) × IsOpen k d × (timer k p ≡ some (timer_at k d)))

  pub follow-IsSound :
      (key k : String) (v : Verdict) (p : Pass)
      → Says (world.chain_job key) v
      → IsSound k (timer k p) (follow config world key v p)
  unfolding follow
  follow-IsSound key k leave p said = inl refl
  follow-IsSound key k expired p said = inl refl
  follow-IsSound key k (arm chain d) p (there, opens, ends, later) =
      let set = arm-timer key k chain d p (omega (arith, later)) in
      elim (Bool-cases (key === k)) [
        | inl same ↦
            let it = (eq_iff key k).0 same in
            inr (
              d,
              (chain, ap world.chain_job (sym it) ∙ there, opens, ends, later),
              set ∙ simp same (ap (λ j. some (timer_at j d)) it),
            )
        | inr other ↦ inl (set ∙ simp other refl)
      ]
