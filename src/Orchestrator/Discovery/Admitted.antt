-- ===== src/Orchestrator/Discovery/Admitted.antt =====
-- What the gate of `handleDiscovery` of orchestrator/src/orchestrator.js lets through.
use audit_guard.Prelude.{
  ℕ, ◌≤◌, ◌≡◌, ◌≢◌, refl, String, Bool, true, false, Option, none, some, List, [], ◌∷◌, ltb, ◌&&◌,
  is_empty, arith, Bool-cases, inl, inr, lower, lower-lower, All,
}
use audit_guard.Prelude.Map.{Map}
use audit_guard.Orchestrator.Address.{normalize_address, valid}
use audit_guard.Orchestrator.Discovery.{
  Job, Payload, Parsed, not_finite, below_zero, fraction, whole, Config, Invalid, skipped, admitted,
  is_score, is_above_zero, is_below, is_given, key_of, counts, has_counting, has_open_job,
  should_dedupe, validate, after_validation, after_dedupe, admit,
}

module _ (is_address : String → Bool) (config : Config) (now_ms : ℕ) (jobs : List Job) (p : Payload)
    (recent : Map ℕ) where
  validated :
      (r : Map ℕ) (o : Option Invalid)
      → (after_validation is_address config now_ms p r o).0 ≡ admitted
      → (o ≡ none) × (ltb 0 config.min_risk && is_below config.min_risk p.risk_score ≡ false)
  unfolding after_validation
  validated r (some e) h = cc
  validated r none h =
      elim (Bool-cases (ltb 0 config.min_risk && is_below config.min_risk p.risk_score)) [
        | inl low ↦ absurd (skipped≢admitted (rw low at h))
        | inr high ↦ (refl, high)
      ]
    where
      skipped≢admitted : skipped ≢ admitted
      skipped≢admitted e = cc

  passed :
      (b : Bool) (r : Map ℕ)
      → (after_dedupe is_address config now_ms p (b, r)).0 ≡ admitted
      → (b ≡ false)
        × (validate is_address p ≡ none)
        × (ltb 0 config.min_risk && is_below config.min_risk p.risk_score ≡ false)
  unfolding after_dedupe
  passed true r h = cc
  passed false r h = let v = validated r (validate is_address p) h in (refl, v.0, v.1)

  admit_cases :
      (admit is_address config now_ms jobs p recent).0 ≡ admitted
      → ((should_dedupe is_address config now_ms jobs p.contract_address recent).0 ≡ false)
        × (validate is_address p ≡ none)
        × (ltb 0 config.min_risk && is_below config.min_risk p.risk_score ≡ false)
  unfolding admit
  admit_cases h =
      let d = should_dedupe is_address config now_ms jobs p.contract_address recent in
      passed d.0 d.1 h

  -- The risk of a payload.
  abbrev pub IsRisk : Parsed → Type 0
  IsRisk (whole n) = (n ≤ 100) × (config.min_risk ≤ n)
  IsRisk _ = ⊥

  score-IsRisk :
      (r : Parsed)
      → is_score r ≡ true
      → ltb 0 config.min_risk && is_below config.min_risk r ≡ false
      → IsRisk r
  unfolding is_score is_below
  score-IsRisk not_finite s b = cc
  score-IsRisk below_zero s b = cc
  score-IsRisk (fraction n) s b = cc
  score-IsRisk (whole n) s b = ground arith

  validate-none :
      validate is_address p ≡ none
      → (is_given is_address p.contract_address ≡ true)
        × (is_above_zero p.budget ≡ true)
        × (is_score p.risk_score ≡ true)
  unfolding validate
  validate-none h = ground arith

  no_repeat :
      config.dedupe_enabled ≡ true
      → is_empty (key_of is_address p.contract_address) ≡ false
      → (should_dedupe is_address config now_ms jobs p.contract_address recent).0 ≡ false
      → has_open_job is_address now_ms (some (key_of is_address p.contract_address)) jobs ≡ false
  unfolding should_dedupe
  no_repeat on full h = ground arith

  -- What `ethers.isAddress` promises of an address in lower case.
  abbrev pub TakesLower : Type 0
  TakesLower = (s : String) → is_address s ≡ true → is_address (lower s) ≡ true

  key_of-key_of :
      (a : Option String)
      → TakesLower
      → is_empty (key_of is_address a) ≡ false
      → key_of is_address (some (key_of is_address a)) ≡ key_of is_address a
  unfolding key_of normalize_address valid lower
  key_of-key_of none takes full = cc
  key_of-key_of (some s) takes full = elim (Bool-cases (is_empty s)) [
    | inl blank ↦ absurd (true≢false (rw blank at full))
    | inr text ↦ elim (Bool-cases (is_address s)) [
      | inl fits ↦
          let solid : is_empty (lower s) ≡ false = rw (text, fits) at full in
          simp (text, fits, solid, takes s fits) (lower-lower s)
      | inr odd ↦ absurd (true≢false (rw (text, odd) at full))
    ]
  ]
    where
      true≢false : true ≢ false
      true≢false e = cc

  -- The job does not keep the contract of a key busy.
  abbrev pub IsIdle : String → Job → Type 0
  IsIdle key job = counts is_address now_ms key job ≡ false

  IsIdle-jobs :
      (key : String) (js : List Job)
      → has_counting is_address now_ms key js ≡ false
      → All (IsIdle key) js
  unfolding has_counting
  IsIdle-jobs key [] h = tt
  IsIdle-jobs key (job ∷ js) h = (ground arith, IsIdle-jobs key js (ground arith))

  none_busy :
      TakesLower
      → config.dedupe_enabled ≡ true
      → is_empty (key_of is_address p.contract_address) ≡ false
      → (should_dedupe is_address config now_ms jobs p.contract_address recent).0 ≡ false
      → All (IsIdle (key_of is_address p.contract_address)) jobs
  none_busy takes on full h = IsIdle-jobs (key_of is_address p.contract_address) jobs (
      unfold has_open_job in
      rw (key_of-key_of p.contract_address takes full, full) at (no_repeat on full h))

  -- With the deduplication on, a discovery of an address that is admitted has a score which is whole,
  -- at most 100 and at least the limit, a budget above zero, and no job that is open, unpublished and
  -- not stale for the same address in whatever case, given that the lower case of an address is one.
  pub admitted-IsRisk :
      TakesLower
      → config.dedupe_enabled ≡ true
      → is_empty (key_of is_address p.contract_address) ≡ false
      → (admit is_address config now_ms jobs p recent).0 ≡ admitted
      → IsRisk p.risk_score
        × (is_above_zero p.budget ≡ true)
        × All (IsIdle (key_of is_address p.contract_address)) jobs
  admitted-IsRisk takes on full h =
      let c = admit_cases h in
      let v = validate-none c.1 in
      (score-IsRisk p.risk_score v.2 c.2, v.1, none_busy takes on full c.0)
