-- ===== src/Orchestrator/Closing/Answered.antt =====
-- The steps of `closeExpiredAuction` of orchestrator/src/orchestrator.js: its attempts and calls, and
-- what its answers say of them.
use audit_guard.Prelude.{
  ℕ, suc, ◌+◌, ◌≤◌, ◌≡◌, refl, String, true, false, Option, none, some, List, [], ◌∷◌, ◌++◌, ◌⊎◌,
  inl, inr, arith, Bool-cases, sym,
}
use mathlib.Core.List.{append_assoc}
use audit_guard.Prelude.Map
use audit_guard.Orchestrator.Errors.{is_auction_terminal, is_insufficient_funds, is_retriable}
use audit_guard.Orchestrator.Closing.{
  Job, State, Step, top_up, cancel_job, job_cancelled, retry_top_up, skipped, wait, tx_failed,
  Cancelled, receipt, failed, Answers, Verdict, closed, open_still, rejected, Run, store,
  try_cancel, try_close, pause, give_up, behind,
}

-- The attempts among the steps, of which each begins with a top-up.
abbrev pub tries : List Step → ℕ
tries [] = 0
tries (top_up ∷ ts) = suc (tries ts)
tries (_ ∷ ts) = tries ts

abbrev pub calls : List Step → ℕ
calls [] = 0
calls (cancel_job ∷ ts) = suc (calls ts)
calls (_ ∷ ts) = calls ts

pub tries-append : (ts us : List Step) → tries (ts ++ us) ≡ tries ts + tries us
tries-append [] us = omega arith
tries-append (top_up ∷ ts) us = omega (arith, tries-append ts us)
tries-append (cancel_job ∷ ts) us = tries-append ts us
tries-append (job_cancelled ∷ ts) us = tries-append ts us
tries-append (retry_top_up ∷ ts) us = tries-append ts us
tries-append (skipped ∷ ts) us = tries-append ts us
tries-append (wait n ∷ ts) us = tries-append ts us
tries-append (tx_failed e ∷ ts) us = tries-append ts us

pub calls-append : (ts us : List Step) → calls (ts ++ us) ≡ calls ts + calls us
calls-append [] us = omega arith
calls-append (cancel_job ∷ ts) us = omega (arith, calls-append ts us)
calls-append (top_up ∷ ts) us = calls-append ts us
calls-append (job_cancelled ∷ ts) us = calls-append ts us
calls-append (retry_top_up ∷ ts) us = calls-append ts us
calls-append (skipped ∷ ts) us = calls-append ts us
calls-append (wait n ∷ ts) us = calls-append ts us
calls-append (tx_failed e ∷ ts) us = calls-append ts us

-- The job of the key is cancelled and terminal, and its winner timer is gone.
abbrev pub IsClosed : String → State → Type 0
IsClosed key s =
    ((job : Job) × (Map.get key s.jobs ≡ some job)
      × (job.cancelled_on_chain ≡ true)
      × (job.terminal_on_chain ≡ true))
    × (Map.get key s.timers ≡ none)

-- The steps end with an error that is not terminal, and after which the loop does not go on or has no
-- attempt left.
abbrev pub IsGivenUp : ℕ → List Step → Type 0
IsGivenUp most steps =
    (e : String) × (front : List Step) × (steps ≡ front ++ tx_failed e ∷ [])
    × (is_auction_terminal e ≡ false)
    × ((is_retriable e ≡ false) ⊎ (tries steps ≡ most))

abbrev pub IsAnswered : String → ℕ → Run → Verdict → Type 0
IsAnswered key most r closed = IsClosed key r.state
IsAnswered key most r open_still = IsGivenUp most r.steps
IsAnswered key most r (rejected e) = IsGivenUp most r.steps

module _ (key reason : String) where
  pub store-IsClosed :
      (job : Job) (s : State)
      → job.cancelled_on_chain ≡ true
      → job.terminal_on_chain ≡ true
      → IsClosed key (store key job s)
  unfolding store
  store-IsClosed job s c t =
      ((job, Map.get-set_self key job s.jobs, c, t), Map.get-delete_self key s.timers)

  pub tries-try_close :
      (a : Answers) (job : Job) (s : State) (o : Option String) (c : Cancelled)
      → a.cancelled ≡ c
      → (tries (try_close key reason a job s o).steps ≡ 1)
        × (calls (try_close key reason a job s o).steps ≤ 1)
  unfolding try_close try_cancel
  tries-try_close a job s (some e) c f = (refl, omega arith)
  tries-try_close a job s none (receipt h) f = simp f (refl, omega arith)
  tries-try_close a job s none (failed e) f = simp f (refl, omega arith)

  pub tries-pause : (e : String) (attempt : ℕ) → tries (pause key reason e attempt) ≡ 0
  unfolding pause
  tries-pause e attempt = elim (Bool-cases (is_insufficient_funds e)) [
    | inl low ↦ simp low refl
    | inr other ↦ simp other refl
  ]

  pub calls-pause : (e : String) (attempt : ℕ) → calls (pause key reason e attempt) ≡ 0
  unfolding pause
  calls-pause e attempt = elim (Bool-cases (is_insufficient_funds e)) [
    | inl low ↦ simp low refl
    | inr other ↦ simp other refl
  ]

  append-IsGivenUp :
      (n : ℕ) (front steps : List Step)
      → tries front ≡ 1
      → IsGivenUp n steps
      → IsGivenUp (suc n) (front ++ steps)
  append-IsGivenUp n front steps one (e, before, same, unfinished, left) = (
    e,
    front ++ before,
    rw same (sym (append_assoc front before (tx_failed e ∷ []))),
    unfinished,
    elim left [ inl stop ↦ inl stop | inr all ↦ inr (omega (arith, tries-append front steps)) ],
  )

  pub behind-IsAnswered :
      (n : ℕ) (front : List Step) (r : Run) (v : Verdict)
      → tries front ≡ 1
      → IsAnswered key n r v
      → IsAnswered key (suc n) (behind key reason front r) v
  unfolding behind
  behind-IsAnswered n front r closed one h = h
  behind-IsAnswered n front r open_still one h = append-IsGivenUp n front r.steps one h
  behind-IsAnswered n front r (rejected e) one h = append-IsGivenUp n front r.steps one h

  pub give_up-IsAnswered :
      (log : Option String) (e : String) (s : State) (n : ℕ)
      → is_auction_terminal e ≡ false
      → (is_retriable e ≡ false) ⊎ (n ≡ 0)
      → IsAnswered key n (give_up key reason log e s) (give_up key reason log e s).verdict
  unfolding give_up
  give_up-IsAnswered none e s n t h =
      (e, [], refl, t, elim h [ inl stop ↦ inl stop | inr none_left ↦ inr (sym none_left) ])
  give_up-IsAnswered (some thrown) e s n t h =
      (e, [], refl, t, elim h [ inl stop ↦ inl stop | inr none_left ↦ inr (sym none_left) ])
