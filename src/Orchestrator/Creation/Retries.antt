-- ===== src/Orchestrator/Creation/Retries.antt =====
-- How often `handleDiscovery` of orchestrator/src/orchestrator.js tries to create an audit job, and how
-- long it waits in between.
use audit_guard.Prelude.{
  ℕ, zero, suc, ◌+◌, ◌-◌, ◌≤◌, ◌<◌, ◌≡◌, refl, String, Bool, true, false, Option, none, some, List,
  [], ◌∷◌, ◌++◌, leb, ◌==◌, ◌||◌, not, arith, Bool-cases, inl, inr, max,
}
use audit_guard.Orchestrator.Errors.{is_insufficient_funds, is_retriable}
use audit_guard.Orchestrator.Creation.{
  Config, World, Answer, gives, throws, Created, Step, top_up, create, retry_top_up,
  create_deferred, create_retrying, wait, tx_failed, create_aborted, job_failed, Tried, try_send,
  try_next, try_create, delay_ms, retry_steps, behind, settle_attempt, attempts, create_job,
  failure_steps, report, create_audit_job,
}

-- The calls of `createAuditJob` among the steps, and the waits.
abbrev pub creates : List Step → ℕ
creates [] = 0
creates (create ∷ steps) = suc (creates steps)
creates (_ ∷ steps) = creates steps

abbrev pub waits : List Step → ℕ
waits [] = 0
waits (wait n ∷ steps) = suc (waits steps)
waits (_ ∷ steps) = waits steps

-- No wait is longer than so much.
abbrev pub AreWithin : ℕ → List Step → Type 0
AreWithin cap [] = Unit
AreWithin cap (wait n ∷ steps) = (n ≤ cap) × AreWithin cap steps
AreWithin cap (_ ∷ steps) = AreWithin cap steps

creates-append : (xs ys : List Step) → creates (xs ++ ys) ≡ creates xs + creates ys
creates-append [] ys = omega arith
creates-append (x ∷ xs) ys = let ih = creates-append xs ys in of_step x ih
  where
    of_step :
        (x : Step)
        → creates (xs ++ ys) ≡ creates xs + creates ys
        → creates (x ∷ (xs ++ ys)) ≡ creates (x ∷ xs) + creates ys
    of_step create ih = omega (arith, ih)
    of_step top_up ih = ih
    of_step retry_top_up ih = ih
    of_step create_deferred ih = ih
    of_step create_retrying ih = ih
    of_step (wait n) ih = ih
    of_step (tx_failed e) ih = ih
    of_step (create_aborted e) ih = ih
    of_step (job_failed e) ih = ih

waits-append : (xs ys : List Step) → waits (xs ++ ys) ≡ waits xs + waits ys
waits-append [] ys = omega arith
waits-append (x ∷ xs) ys = let ih = waits-append xs ys in of_step x ih
  where
    of_step :
        (x : Step)
        → waits (xs ++ ys) ≡ waits xs + waits ys
        → waits (x ∷ (xs ++ ys)) ≡ waits (x ∷ xs) + waits ys
    of_step (wait n) ih = omega (arith, ih)
    of_step create ih = ih
    of_step top_up ih = ih
    of_step retry_top_up ih = ih
    of_step create_deferred ih = ih
    of_step create_retrying ih = ih
    of_step (tx_failed e) ih = ih
    of_step (create_aborted e) ih = ih
    of_step (job_failed e) ih = ih

AreWithin-append :
    (cap : ℕ) (xs ys : List Step) → AreWithin cap xs → AreWithin cap ys → AreWithin cap (xs ++ ys)
AreWithin-append cap [] ys h k = k
AreWithin-append cap (wait n ∷ xs) ys h k = (h.0, AreWithin-append cap xs ys h.1 k)
AreWithin-append cap (create ∷ xs) ys h k = AreWithin-append cap xs ys h k
AreWithin-append cap (top_up ∷ xs) ys h k = AreWithin-append cap xs ys h k
AreWithin-append cap (retry_top_up ∷ xs) ys h k = AreWithin-append cap xs ys h k
AreWithin-append cap (create_deferred ∷ xs) ys h k = AreWithin-append cap xs ys h k
AreWithin-append cap (create_retrying ∷ xs) ys h k = AreWithin-append cap xs ys h k
AreWithin-append cap ((tx_failed e) ∷ xs) ys h k = AreWithin-append cap xs ys h k
AreWithin-append cap ((create_aborted e) ∷ xs) ys h k = AreWithin-append cap xs ys h k
AreWithin-append cap ((job_failed e) ∷ xs) ys h k = AreWithin-append cap xs ys h k

module _ (config : Config) where
  -- The longest wait.
  abbrev pub cap_ms : ℕ
  cap_ms = max (max 1 config.backoff_ms) config.max_backoff_ms

  delay-le-cap : (attempt : ℕ) → delay_ms config attempt ≤ cap_ms
  unfolding delay_ms
  delay-le-cap attempt = omega arith

  -- At most so many calls, and so many waits, none longer than the cap.
  abbrev pub IsWithin : ℕ → ℕ → List Step → Type 0
  IsWithin calls most steps =
      (creates steps ≤ calls) × (waits steps ≤ most) × AreWithin cap_ms steps

  try_create-IsWithin :
      (w : World) (o : Option String) (next : Answer (Option ℕ)) (hash : Answer (Option String))
      → w.next_job_id ≡ next
      → w.tx_hash ≡ hash
      → IsWithin 1 0 (try_create config w o).steps
  unfolding try_create try_next try_send
  try_create-IsWithin w (some e) next hash f g = (omega arith, omega arith, tt)
  try_create-IsWithin w none (throws e) hash f g = simp f (omega arith, omega arith, tt)
  try_create-IsWithin w none (gives n) (throws e) f g = simp (f, g) (omega arith, omega arith, tt)
  try_create-IsWithin w none (gives n) (gives h) f g = simp (f, g) (omega arith, omega arith, tt)

  retry-IsWithin : (e : String) (attempt : ℕ) → IsWithin 0 1 (retry_steps config e attempt)
  unfolding retry_steps
  retry-IsWithin e attempt =
      let d = delay-le-cap attempt in
      elim (Bool-cases (is_insufficient_funds e)) [
        | inl low ↦ elim (Bool-cases (attempt == 1)) [
          | inl first ↦ simp (low, first) (omega arith, omega arith, (d, tt))
          | inr later ↦ simp (low, later) (omega arith, omega arith, (d, tt))
        ]
        | inr other ↦ elim (Bool-cases (attempt == 1)) [
          | inl first ↦ simp (other, first) (omega arith, omega arith, (d, tt))
          | inr later ↦ simp (other, later) (omega arith, omega arith, (d, tt))
        ]
      ]

  append-IsWithin :
      (a b c d : ℕ) (xs ys : List Step)
      → IsWithin a b xs
      → IsWithin c d ys
      → IsWithin (a + c) (b + d) (xs ++ ys)
  append-IsWithin a b c d xs ys f g = (
    omega (arith, creates-append xs ys, f.0, g.0),
    omega (arith, waits-append xs ys, f.1, g.1),
    AreWithin-append cap_ms xs ys f.2 g.2,
  )

  settle-IsWithin :
      (most left attempt : ℕ) (t : Tried) (next : String → Tried) (o : Answer Created)
      → suc left + attempt ≡ suc most
      → IsWithin 1 0 t.steps
      → ((n : ℕ) (e : String) → left ≡ suc n → IsWithin left n (next e).steps)
      → IsWithin (suc left) left (settle_attempt config most t next attempt o).steps
  unfolding settle_attempt behind
  settle-IsWithin most left attempt t next (gives job) sum one ih =
      (omega (arith, one.0), zero_waits, one.2)
    where
      zero_waits : waits t.steps ≤ left
      zero_waits = omega (arith, one.1)
  settle-IsWithin most left attempt t next (throws e) sum one ih =
      elim (Bool-cases (not (is_retriable e) || leb most attempt)) [
        | inl stop ↦ simp stop (omega (arith, one.0), zero_waits, one.2)
        | inr go ↦ simp go (more left (ground (arith, go, sum)) ih)
      ]
    where
      zero_waits : waits t.steps ≤ left
      zero_waits = omega (arith, one.1)

      more :
          (left : ℕ)
          → 0 < left
          → ((n : ℕ) (e : String) → left ≡ suc n → IsWithin left n (next e).steps)
          → IsWithin (suc left) left ((t.steps ++ retry_steps config e attempt) ++ (next e).steps)
      more zero pos ih = absurd (omega arith)
      more (suc n) pos ih =
          let a =
            append-IsWithin 1 0 0 1 t.steps (retry_steps config e attempt) one
              (retry-IsWithin e attempt) in
          let b =
            append-IsWithin (1 + 0) (0 + 1) (suc n) n (t.steps ++ retry_steps config e attempt)
              (next e).steps a (ih n e refl) in
          (omega (arith, b.0), omega (arith, b.1), b.2)

  attempts-IsWithin :
      (most : ℕ) (world : ℕ → World) (left attempt : ℕ) (last : String)
      → suc left + attempt ≡ suc most
      → IsWithin (suc left) left (attempts config most world (suc left) attempt last).steps
  unfolding attempts
  attempts-IsWithin most world zero attempt last sum =
      let w = world attempt in
      let t = try_create config w w.top_up_error in
      settle-IsWithin most 0 attempt t _ t.result sum
        (try_create-IsWithin w w.top_up_error w.next_job_id w.tx_hash refl refl)
        (λ n e h. absurd (omega (arith, h)))
  attempts-IsWithin most world (suc left) attempt last sum =
      let w = world attempt in
      let t = try_create config w w.top_up_error in
      let ih =
        λ (e : String). attempts-IsWithin most world left (attempt + 1) e (omega (arith, sum)) in
      settle-IsWithin most (suc left) attempt t
        (attempts config most world (suc left) (attempt + 1)) t.result sum
        (try_create-IsWithin w w.top_up_error w.next_job_id w.tx_hash refl refl)
        (λ n e h. let same : left ≡ n = omega (arith, h) in rw (← same) (ih e))

  failure-IsWithin : (e : String) → IsWithin 0 0 (failure_steps config e)
  unfolding failure_steps
  failure-IsWithin e = elim (Bool-cases config.strict_live) [
    | inl strict ↦ simp strict (omega arith, omega arith, tt)
    | inr lax ↦ simp lax (omega arith, omega arith, tt)
  ]

  report-IsWithin :
      (a b : ℕ) (t : Tried) (o : Answer Created)
      → IsWithin a b t.steps
      → IsWithin a b (report config t o).steps
  unfolding report
  report-IsWithin a b t (gives job) h = h
  report-IsWithin a b t (throws e) h =
      let k = append-IsWithin a b 0 0 t.steps (failure_steps config e) h (failure-IsWithin e) in
      (omega (arith, k.0), omega (arith, k.1), k.2)

  -- Whatever the chain answers, a discovery calls `createAuditJob` at most as often as is set (once at
  -- least), and waits in between at most once less, each time for at most the longest wait.
  pub create_audit_job-IsWithin :
      (has_create : Bool) (world : ℕ → World)
      → IsWithin
          (max 1 config.max_attempts)
          (max 1 config.max_attempts - 1)
          (create_audit_job config has_create world).steps
  unfolding create_audit_job create_job
  create_audit_job-IsWithin false world =
      let e : String = "createAuditJob unavailable on contract client" in
      let t : Tried = record { steps = []; result = throws e } in
      report-IsWithin (max 1 config.max_attempts) (max 1 config.max_attempts - 1) t (throws e)
        (omega arith, omega arith, tt)
  create_audit_job-IsWithin true world =
      let most = max 1 config.max_attempts in
      let t = create_job config world in
      report-IsWithin most (most - 1) t t.result (of_most most (omega arith))
    where
      of_most :
          (most : ℕ)
          → 0 < most
          → IsWithin most (most - 1) (attempts config most world most 1 "").steps
      of_most zero pos = absurd (omega arith)
      of_most (suc n) pos =
          let h = attempts-IsWithin (suc n) world n 1 "" (omega arith) in
          (omega (arith, h.0), omega (arith, h.1), h.2)
