-- ===== src/Orchestrator/Closing/Attempts.antt =====
-- How often `closeExpiredAuction` of orchestrator/src/orchestrator.js tries, and what its answers mean.
use audit_guard.Prelude.{
  ℕ, zero, suc, ◌+◌, ◌≤◌, ◌≡◌, refl, String, true, false, Option, none, some, List, ◌++◌, ◌==◌,
  ◌||◌, not, ◌⊎◌, inl, inr, arith, Bool-cases,
}
use audit_guard.Orchestrator.Errors.{is_auction_terminal, is_retriable}
use audit_guard.Orchestrator.Closing.{
  Job, State, Step, Cancelled, receipt, failed, Answers, Run, Tried, mark_cancelled, mark_terminal,
  try_cancel, try_close, pause, give_up, behind, settle_attempt, attempts, run_close,
}
use audit_guard.Orchestrator.Closing.Answered.{
  tries, calls, tries-append, calls-append, IsClosed, IsAnswered, store-IsClosed, tries-try_close,
  tries-pause, calls-pause, behind-IsAnswered, give_up-IsAnswered,
}

module _ (key reason : String) where
  -- What a run of the loop with so many attempts left is to satisfy.
  abbrev pub IsBounded : ℕ → Run → Type 0
  IsBounded most r = (tries r.steps ≤ most) × (calls r.steps ≤ most)

  abbrev pub IsGood : ℕ → Run → Type 0
  IsGood most r = IsBounded most r × IsAnswered key most r r.verdict

  behind-IsGood :
      (n : ℕ) (front : List Step) (r : Run)
      → (tries front ≡ 1) × (calls front ≤ 1)
      → IsGood n r
      → IsGood (suc n) (behind key reason front r)
  behind-IsGood n front r one h = (
    (
      unfold behind in omega (arith, tries-append front r.steps, one.0, h.0.0),
      unfold behind in omega (arith, calls-append front r.steps, one.1, h.0.1),
    ),
    unfold behind in behind-IsAnswered key reason n front r r.verdict one.0 h.1,
  )

  give_up-IsGood :
      (log : Option String) (e : String) (s : State) (n : ℕ)
      → is_auction_terminal e ≡ false
      → (is_retriable e ≡ false) ⊎ (n ≡ 0)
      → IsGood n (give_up key reason log e s)
  give_up-IsGood none e s n t h =
      (unfold give_up in (omega arith, omega arith), give_up-IsAnswered key reason none e s n t h)
  give_up-IsGood (some thrown) e s n t h = (
    unfold give_up in (omega arith, omega arith),
    give_up-IsAnswered key reason (some thrown) e s n t h,
  )

  -- The end of an attempt, given that the loop's next turn is good.
  settle-IsGood :
      (log : Option String) (next : Job → State → Run) (a : Answers) (left attempt : ℕ) (t : Tried)
      (o : Option String)
      → left + attempt ≡ 3
      → (tries t.steps ≡ 1) × (calls t.steps ≤ 1)
      → (o ≡ none → IsClosed key t.state)
      → ((attempt == 3) ≡ false → IsGood left (next t.job t.state))
      → IsGood (suc left) (settle_attempt key reason log next a attempt t o)
  unfolding settle_attempt
  settle-IsGood log next a left attempt t none three one done ih =
      ((omega (arith, one.0), omega (arith, one.1)), done refl)
  settle-IsGood log next a left attempt t (some e) three one done ih =
      elim (Bool-cases (is_auction_terminal e)) [
        | inl over ↦ simp over (
          (omega (arith, one.0), omega (arith, one.1)),
          store-IsClosed key reason (mark_terminal reason a.at t.job) t.state
              (unfold mark_terminal in refl) (unfold mark_terminal in refl),
        )
        | inr unfinished ↦ elim (Bool-cases (not (is_retriable e) || attempt == 3)) [
          | inl stop ↦
              simp (unfinished, stop)
                (behind-IsGood left t.steps (give_up key reason log e t.state) one
                  (give_up-IsGood log e t.state left unfinished (ground (arith, stop, three))))
          | inr go ↦
              simp (unfinished, go)
                (behind-IsGood left (t.steps ++ pause key reason e attempt) (next t.job t.state)
                  (
                    omega (
                      arith,
                      tries-append t.steps (pause key reason e attempt),
                      one.0,
                      tries-pause key reason e attempt,
                    ),
                    omega (
                      arith,
                      calls-append t.steps (pause key reason e attempt),
                      one.1,
                      calls-pause key reason e attempt,
                    ),
                  )
                  (ih (ground (arith, go))))
        ]
      ]

  -- An attempt in which nothing is thrown closes the job.
  try_close-IsClosed :
      (a : Answers) (job : Job) (s : State) (o : Option String) (c : Cancelled)
      → a.cancelled ≡ c
      → (try_close key reason a job s o).error ≡ none
      → IsClosed key (try_close key reason a job s o).state
  unfolding try_close try_cancel
  try_close-IsClosed a job s (some e) c f h = cc
  try_close-IsClosed a job s none (failed e) f h = cc
  try_close-IsClosed a job s none (receipt hash) f h = simp f (
      store-IsClosed key reason (mark_cancelled reason hash a.at job) s
        (unfold mark_cancelled in refl) (unfold mark_cancelled in refl))

  turn-IsGood :
      (world : ℕ → Answers) (log : Option String) (left attempt : ℕ) (job : Job) (s : State)
      → left + attempt ≡ 3
      → ((job' : Job) (s' : State)
          → (attempt == 3) ≡ false
          → IsGood left (attempts key reason world log left (attempt + 1) job' s'))
      → IsGood (suc left) (attempts key reason world log (suc left) attempt job s)
  unfolding attempts
  turn-IsGood world log left attempt job s three next =
      let a = world attempt in
      let t = try_close key reason a job s a.top_up_error in
      settle-IsGood log (attempts key reason world log left (attempt + 1)) a left attempt t t.error
        three (tries-try_close key reason a job s a.top_up_error a.cancelled refl)
        (try_close-IsClosed a job s a.top_up_error a.cancelled refl) (next t.job t.state)

  attempts-IsGood :
      (world : ℕ → Answers) (log : Option String) (left attempt : ℕ) (job : Job) (s : State)
      → left + attempt ≡ 3
      → IsGood (suc left) (attempts key reason world log (suc left) attempt job s)
  attempts-IsGood world log zero attempt job s three =
      turn-IsGood world log 0 attempt job s three (λ job' s' more. absurd (ground arith))
  attempts-IsGood world log (suc left) attempt job s three =
      turn-IsGood world log (suc left) attempt job s three (λ job' s' more.
        attempts-IsGood world log left (attempt + 1) job' s' (omega (arith, three)))

  -- Whatever the chain and the log answer, closing makes at most three attempts and calls `cancelJob`
  -- at most three times. Where it answers true, the job is cancelled and terminal and has no timer;
  -- where it does not, its steps end with an error which is not of a job that is terminal on the
  -- chain, and either the loop does not go on after this error or three attempts were made.
  pub run_close-IsGood :
      (world : ℕ → Answers) (log : Option String) (job : Job) (s : State)
      → IsGood 3 (run_close key reason true world log job s)
  unfolding run_close
  run_close-IsGood world log job s = attempts-IsGood world log 2 1 job s (omega arith)
