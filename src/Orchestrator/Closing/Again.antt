-- ===== src/Orchestrator/Closing/Again.antt =====
-- A second `closeExpiredAuction` of orchestrator/src/orchestrator.js after one that answered true.
use audit_guard.Prelude.{
  ℕ, ◌≡◌, refl, String, Bool, true, false, Option, none, some, [], ◌&&◌, ◌⊎◌, inl, inr, Bool-cases,
  Option-cases, member,
}
use audit_guard.Prelude.Map
use audit_guard.Orchestrator.Closing.{
  Job, new_job, State, Answers, Verdict, closed, open_still, rejected, run_close, job_or_new,
  ensure_job, already, runs, started, begin_close, end_close, finish_call, close_expired_auction,
}
use audit_guard.Orchestrator.Closing.Answered.{IsAnswered}
use audit_guard.Orchestrator.Closing.Attempts.{run_close-IsGood}

abbrev pub IsCancelled : String → State → Type 0
IsCancelled key s = (job : Job) × (Map.get key s.jobs ≡ some job) × (job.cancelled_on_chain ≡ true)

module _ (under_way : Verdict) (single has_cancel : Bool) (key reason : String) where
  -- A job that is cancelled on the chain is left alone.
  already_closed :
      (world : ℕ → Answers) (log : Option String) (s : State)
      → IsCancelled key s
      → close_expired_auction under_way single has_cancel key reason world log s
        ≡ record { state = s; steps = []; verdict = closed }
  unfolding close_expired_auction begin_close job_or_new ensure_job finish_call
  already_closed world log s (job, there, done) = simp (there, done) refl

  no_cancel :
      (world : ℕ → Answers) (log : Option String) (job : Job) (s : State)
      → (run_close key reason false world log job s).verdict ≡ open_still
  unfolding run_close
  no_cancel world log job s = refl

  run-IsCancelled :
      (has : Bool) (world : ℕ → Answers) (log : Option String) (job : Job) (s : State)
      → (run_close key reason has world log job s).verdict ≡ closed
      → IsCancelled key (run_close key reason has world log job s).state
  run-IsCancelled false world log job s e = cc (no_cancel world log job s)
  run-IsCancelled true world log job s e =
      of_closed (run_close key reason true world log job s).verdict e
        (run_close-IsGood key reason world log job s).1
    where
      of_closed :
          (v : Verdict)
          → v ≡ closed
          → IsAnswered key 3 (run_close key reason true world log job s) v
          → IsCancelled key (run_close key reason true world log job s).state
      of_closed closed e h = (h.0.0, h.0.1, h.0.2)
      of_closed open_still e h = cc
      of_closed (rejected x) e h = cc

  -- `finally` leaves the jobs as they are.
  end_close-jobs : (s : State) → (end_close single key s).jobs ≡ s.jobs
  unfolding end_close
  end_close-jobs s = elim (Bool-cases single) [ inl on ↦ simp on refl | inr off ↦ simp off refl ]

  runs-IsCancelled :
      (world : ℕ → Answers) (log : Option String) (s : State)
      → (finish_call under_way single has_cancel key reason world log (runs, s)).verdict ≡ closed
      → IsCancelled key
          (finish_call under_way single has_cancel key reason world log (runs, s)).state
  unfolding finish_call
  runs-IsCancelled world log s e =
      let job = job_or_new (Map.get key s.jobs) in
      let (found, there, done) = run-IsCancelled has_cancel world log job s e in
      (
        found,
        rw (end_close-jobs (run_close key reason has_cancel world log job s).state) there,
        done,
      )

  -- A call that joins no other finds the job cancelled, or runs.
  begin-cases :
      (s : State)
      → single && member key s.inflight ≡ false
      → ((begin_close single key s ≡ (already, s)) × IsCancelled key s)
        ⊎ ((s' : State) × (begin_close single key s ≡ (runs, s')))
  unfolding begin_close job_or_new ensure_job new_job
  begin-cases s alone = elim (Option-cases (Map.get key s.jobs)) [
    | inl absent ↦ inr (started single key (ensure_job key none s), simp (absent, alone) refl)
    | inr (job, there) ↦ elim (Bool-cases job.cancelled_on_chain) [
      | inl done ↦ inl (simp (there, done) refl, (job, there, done))
      | inr live ↦ inr (started single key s, simp (there, live, alone) refl)
    ]
  ]

  closed-IsCancelled :
      (world : ℕ → Answers) (log : Option String) (s : State)
      → single && member key s.inflight ≡ false
      → (close_expired_auction under_way single has_cancel key reason world log s).verdict ≡ closed
      → IsCancelled key
          (close_expired_auction under_way single has_cancel key reason world log s).state
  unfolding close_expired_auction
  closed-IsCancelled world log s alone e = elim (begin-cases s alone) [
    | inl (same, done) ↦ rw same (unfold finish_call in done)
    | inr (s', same) ↦ rw same (runs-IsCancelled world log s' (rw same at e))
  ]

  -- Where a call of closing that joins no run under way answers true, each later call, with whatever
  -- answers, does no step, leaves the state and answers true.
  pub close-close :
      (world later : ℕ → Answers) (log log' : Option String) (s : State)
      → single && member key s.inflight ≡ false
      → (close_expired_auction under_way single has_cancel key reason world log s).verdict ≡ closed
      → close_expired_auction under_way single has_cancel key reason later log'
          (close_expired_auction under_way single has_cancel key reason world log s).state
        ≡ record {
          state = (close_expired_auction under_way single has_cancel key reason world log s).state;
          steps = [];
          verdict = closed;
        }
  close-close world later log log' s alone e =
      already_closed later log' _ (closed-IsCancelled world log s alone e)
