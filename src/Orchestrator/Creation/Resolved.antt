-- ===== src/Orchestrator/Creation/Resolved.antt =====
-- When `handleDiscovery` of orchestrator/src/orchestrator.js ends with a job, and with which.
use audit_guard.Prelude.{
  ℕ, zero, suc, ◌+◌, ◌≤◌, ◌<◌, ◌≡◌, refl, String, Bool, true, false, Option, none, some, List, leb,
  ltb, ◌==◌, ◌||◌, not, ◌or_else◌, arith, Bool-cases, inl, inr, max, sym, ap, ◌∙◌,
}
use audit_guard.Orchestrator.Errors.{is_retriable}
use audit_guard.Orchestrator.Creation.{
  Config, World, Log, Answer, gives, throws, Receipt, reverted, mined, Created, Tried, first_posted,
  or_first, if_positive, value_of, posted_deadline, resolve_id, resolve_deadline, try_resolve,
  try_receipt, try_send, try_next, try_create, behind, settle_attempt, attempts, create_job, report,
  create_audit_job,
}

module _ (config : Config) where
  -- A positive deadline, or none.
  abbrev pub IsPositive : Option ℕ → Type 0
  IsPositive none = Unit
  IsPositive (some n) = 0 < n

  if_positive-IsPositive : (o : Option ℕ) → IsPositive (if_positive o)
  unfolding if_positive
  if_positive-IsPositive none = tt
  if_positive-IsPositive (some n) = elim (Bool-cases (ltb 0 n)) [
    | inl more ↦ let pos : 0 < n = ground arith in simp more pos
    | inr none_there ↦ simp none_there tt
  ]

  posted_deadline-IsPositive : (o : Option (Option ℕ × Option ℕ)) → IsPositive (posted_deadline o)
  unfolding posted_deadline
  posted_deadline-IsPositive none = tt
  posted_deadline-IsPositive (some (id, deadline)) = if_positive-IsPositive deadline

  or_first-pos :
      (a b : Option ℕ) (n : ℕ) → IsPositive a → IsPositive b → 0 < n → 0 < (or_first a b or_else n)
  unfolding or_first
  or_first-pos (some a) b n h k pos = h
  or_first-pos none (some b) n h k pos = k
  or_first-pos none none n h k pos = pos

  resolve_deadline-pos : (w : World) (logs : List Log) → 0 < resolve_deadline config w logs
  unfolding resolve_deadline
  resolve_deadline-pos w logs =
      or_first-pos (posted_deadline (first_posted logs)) (if_positive (value_of w.chain_deadline)) _
        (posted_deadline-IsPositive (first_posted logs))
        (if_positive-IsPositive (value_of w.chain_deadline)) (omega arith)

  -- The job stands for a receipt of the attempt, has the id that the attempt resolves and a deadline.
  pub record IsMined (w : World) (job : Created) : Type 0 where
    pub expected : Option ℕ
    pub logs : List Log
    pub expects : w.next_job_id ≡ gives expected
    pub receives : w.receipt ≡ gives (mined logs)
    pub resolves : resolve_id expected logs w.next_job_id_after ≡ some job.job_id
    pub deadline : 0 < job.auction_deadline_sec

  resolve-IsMined :
      (w : World) (job : Created) (hash : Option String) (expected : Option ℕ) (logs : List Log)
      (o : Option ℕ)
      → w.next_job_id ≡ gives expected
      → w.receipt ≡ gives (mined logs)
      → resolve_id expected logs w.next_job_id_after ≡ o
      → try_resolve config w hash logs o ≡ gives job
      → IsMined w job
  unfolding try_resolve
  resolve-IsMined w job hash expected logs none f g r e = cc
  resolve-IsMined w job hash expected logs (some id) f g r e =
      let same : record {
        job_id = id;
        auction_deadline_sec = resolve_deadline config w logs;
        create_tx_hash = hash;
      }
          ≡ job =
        ground arith in
      record {
        expected = expected;
        logs = logs;
        expects = f;
        receives = g;
        resolves = r ∙ ap (λ (j : Created). some j.job_id) same;
        deadline = rw (← same) (resolve_deadline-pos w logs);
      }

  receipt-IsMined :
      (w : World) (job : Created) (hash : Option String) (expected : Option ℕ) (r : Answer Receipt)
      → w.next_job_id ≡ gives expected
      → w.receipt ≡ r
      → try_receipt config w expected hash r ≡ gives job
      → IsMined w job
  unfolding try_receipt
  receipt-IsMined w job hash expected (throws x) f g e = cc
  receipt-IsMined w job hash expected (gives reverted) f g e = cc
  receipt-IsMined w job hash expected (gives (mined logs)) f g e =
      resolve-IsMined w job hash expected logs _ f g refl e

  try_create-IsMined :
      (w : World) (job : Created) (o : Option String) (next : Answer (Option ℕ))
      (hash : Answer (Option String))
      → w.next_job_id ≡ next
      → w.tx_hash ≡ hash
      → (try_create config w o).result ≡ gives job
      → IsMined w job
  unfolding try_create try_next try_send
  try_create-IsMined w job (some x) next hash f g e = cc
  try_create-IsMined w job none (throws x) hash f g e = cc
  try_create-IsMined w job none (gives expected) (throws x) f g e = cc
  try_create-IsMined w job none (gives expected) (gives hash) f g e =
      receipt-IsMined w job hash expected w.receipt f refl (simp (f, g) at e)

  abbrev pub try_of : World → Tried
  try_of w = try_create config w w.top_up_error

  -- Some attempt mined the job.
  abbrev pub IsMinedIn : (ℕ → World) → Created → Type 0
  IsMinedIn world job = (i : ℕ) × IsMined (world i) job

  settle-IsMined :
      (most attempt : ℕ) (world : ℕ → World) (next : String → Tried) (o : Answer Created)
      (job : Created)
      → (try_of (world attempt)).result ≡ o
      → ((e : String) → (next e).result ≡ gives job → IsMinedIn world job)
      → (settle_attempt config most (try_of (world attempt)) next attempt o).result ≡ gives job
      → IsMinedIn world job
  unfolding settle_attempt behind
  settle-IsMined most attempt world next (gives found) job f ih e =
      let w = world attempt in
      (attempt, try_create-IsMined w job w.top_up_error w.next_job_id w.tx_hash refl refl e)
  settle-IsMined most attempt world next (throws x) job f ih e =
      elim (Bool-cases (not (is_retriable x) || leb most attempt)) [
        | inl stop ↦ cc
        | inr go ↦ ih x (rw go at e)
      ]

  attempts-IsMined :
      (most : ℕ) (world : ℕ → World) (left attempt : ℕ) (last : String) (job : Created)
      → (attempts config most world left attempt last).result ≡ gives job
      → IsMinedIn world job
  unfolding attempts
  attempts-IsMined most world zero attempt last job e = cc
  attempts-IsMined most world (suc left) attempt last job e =
      let t = try_of (world attempt) in
      settle-IsMined most attempt world (attempts config most world left (attempt + 1)) t.result job
        refl (λ x. attempts-IsMined most world left (attempt + 1) x job) e

  report-result : (t : Tried) (o : Answer Created) → (report config t o).result ≡ t.result
  unfolding report
  report-result t (gives job) = refl
  report-result t (throws e) = refl

  -- A discovery ends with a job only after an attempt whose transaction has a receipt that did not
  -- fail; the job's id is what that attempt resolves from the logs, the expected id and the next id,
  -- and its deadline is above zero.
  pub create_audit_job-IsMined :
      (has_create : Bool) (world : ℕ → World) (job : Created)
      → (create_audit_job config has_create world).result ≡ gives job
      → IsMinedIn world job
  unfolding create_audit_job create_job
  create_audit_job-IsMined false world job e = cc
  create_audit_job-IsMined true world job e =
      let t = create_job config world in
      attempts-IsMined (max 1 config.max_attempts) world (max 1 config.max_attempts) 1 "" job
        (sym (report-result t t.result) ∙ e)

  -- The attempt fails with an error after which the loop goes on.
  abbrev pub FailsAt : World → Type 0
  FailsAt w = (e : String) × ((try_of w).result ≡ throws e) × (is_retriable e ≡ true)

  attempts-gives :
      (most : ℕ) (world : ℕ → World) (j left attempt : ℕ) (last : String) (job : Created)
      → attempt ≤ j
      → j ≤ most
      → left + attempt ≡ suc most
      → ((i : ℕ) → attempt ≤ i → i < j → FailsAt (world i))
      → (try_of (world j)).result ≡ gives job
      → (attempts config most world left attempt last).result ≡ gives job
  unfolding attempts settle_attempt behind
  attempts-gives most world j zero attempt last job from to sum fails found = absurd (omega arith)
  attempts-gives most world j (suc left) attempt last job from to sum fails found =
      let ih = λ (e : String) (later : attempt + 1 ≤ j).
        attempts-gives most world j left (attempt + 1) e job later to (omega (arith, sum))
          (λ i lo hi. fails i (omega (arith, lo)) hi) found in
      elim (Bool-cases (attempt == j)) [
        | inl here ↦
            let same : attempt ≡ j = ground arith in
            let found' : (try_of (world attempt)).result ≡ gives job = rw same found in
            simp found' refl
        | inr later ↦
            let less : attempt < j = ground arith in
            let (e, failed, again) = fails attempt (omega arith) less in
            let more : leb most attempt ≡ false = ground arith in
            simp (failed, again, more) (ih e (omega (arith, less)))
      ]

  -- If the attempt `j` mines a job and all attempts before it fail with errors after which the loop
  -- goes on, and `j` is not past the number that is set, the discovery ends with this job.
  pub create_audit_job-gives :
      (world : ℕ → World) (j : ℕ) (job : Created)
      → 0 < j
      → j ≤ max 1 config.max_attempts
      → ((i : ℕ) → 1 ≤ i → i < j → FailsAt (world i))
      → (try_of (world j)).result ≡ gives job
      → (create_audit_job config true world).result ≡ gives job
  unfolding create_audit_job create_job
  create_audit_job-gives world j job pos to fails found =
      let most = max 1 config.max_attempts in
      report-result (attempts config most world most 1 "") _
      ∙ attempts-gives most world j most 1 "" job (omega (arith, pos)) to (omega arith) fails found
