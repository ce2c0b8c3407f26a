-- ===== src/Orchestrator/SelectRun/Quiet.antt =====
-- When a run of `selectWinnersOnChain` in orchestrator/src/orchestrator.js calls nothing.
use mathlib.Core.Bool.{false≢true}
use audit_guard.Prelude.{
  ℕ, ◌≡◌, refl, String, true, false, Option, none, some, List, [], ◌∷◌, ◌==◌, ◌||◌, ◌or_else◌, ◌⊎◌,
  inl, inr, arith, Bool-cases, ◌∙◌, sym, length, ltb,
}
use audit_guard.Prelude.Map
use audit_guard.Orchestrator.Roster.{Roster}
use audit_guard.Orchestrator.Choosing.{ChainBid, Bid, map_chain_bids}
use audit_guard.Orchestrator.Hydration.{Reason, Job, hydrate}
use audit_guard.Orchestrator.Selecting.{
  Config, State, World, Run, Step, publish_then, behind, set_job,
}
use audit_guard.Orchestrator.SelectRun.{
  clear_timer, without_bids, fail_bare, with_bids, summarize, select_among, read_bids, has_none,
  or_known, on_open, on_status, on_job, keep_hydrated, find_job, run_select,
}
use audit_guard.Orchestrator.Selecting.Counts.{call, announcement, sum_of}
use audit_guard.Orchestrator.SelectRun.Outcome.{
  bids_read, bids_used, found_job, is_bare, has_none-is_bare, is_selectable,
}

module _ (config : Config) (roster : Roster) (key : String) (w : World) where
  -- Nothing is called and nothing is announced.
  abbrev pub IsQuiet : Run → Type 0
  IsQuiet r = (sum_of call r.steps ≡ 0) × (sum_of announcement r.steps ≡ 0)

  bare-IsQuiet :
      (reason : Reason) (rest : List Step) (job : Job) (s : State)
      → (sum_of call rest ≡ 0) × (sum_of announcement rest ≡ 0)
      → IsQuiet (fail_bare config roster key w reason rest job s)
  unfolding fail_bare publish_then behind
  bare-IsQuiet reason rest job s h = elim (Bool-cases w.job_failed_taken) [
    | inl taken ↦ simp taken (omega (arith, h.0), omega (arith, h.1))
    | inr refused ↦ simp refused (refl, refl)
  ]

  without-IsQuiet :
      (n : ℕ) (job : Job) (s : State) → IsQuiet (without_bids config roster key w n job s)
  unfolding without_bids
  without-IsQuiet n job s = elim (Bool-cases (ltb 0 n)) [
    | inl more ↦ simp more (bare-IsQuiet _ _ job s (refl, refl))
    | inr none_there ↦ simp none_there (bare-IsQuiet _ _ job s (refl, refl))
  ]

  with_bids-IsQuiet :
      (count : Option ℕ) (bids : List Bid) (job : Job) (s : State)
      → is_bare config roster key w bids ≡ true
      → IsQuiet (with_bids config roster key w count bids job s)
  unfolding with_bids
  with_bids-IsQuiet count [] job s e = without-IsQuiet _ job s
  with_bids-IsQuiet count (b ∷ bids) job s e = cc

  among-IsQuiet :
      (heard : ℕ) (count : Option ℕ) (job : Job) (s : State)
      → is_bare config roster key w job.bidders ≡ true
      → IsQuiet (select_among config roster key w heard count job s)
  unfolding select_among behind summarize
  among-IsQuiet heard count job s e =
      let (calls, announced) = with_bids-IsQuiet count job.bidders job s e in
      (omega (arith, calls), omega (arith, announced))

  read-IsQuiet :
      (heard : ℕ) (o : Option (List ChainBid)) (job : Job) (s : State)
      → is_bare config roster key w (bids_read config roster key w o job) ≡ true
      → IsQuiet (read_bids config roster key w heard o job s)
  unfolding read_bids
  read-IsQuiet heard none job s e = among-IsQuiet heard w.known_count job s e
  read-IsQuiet heard (some chain) job s e =
      let job' = record job { bidders = map_chain_bids config.is_address roster 0 chain } in
      among-IsQuiet heard (some (length chain)) job' (set_job key job' s) e

  open-IsQuiet :
      (job : Job) (s : State)
      → is_bare config roster key w (bids_used config roster key w job) ≡ true
      → IsQuiet (on_open config roster key w job s)
  unfolding on_open
  open-IsQuiet job s e = elim (Bool-cases config.has_bid_api) [
    | inl api ↦ simp api (read-IsQuiet _ w.bids job s (simp api at e))
    | inr local ↦
        let e' : has_none config roster key job.bidders ≡ true =
          has_none-is_bare config roster key w job.bidders ∙ (simp local at e) in
        simp (local, e')
          (among-IsQuiet (job.hcs_bid_count or_else length job.bidders)
            (or_known config roster key w.bid_count w.known_count) job s (simp local at e))
  ]

  -- A job that is there is not selectable, or it has no bid.
  abbrev pub IsHeld : Option Job → Type 0
  IsHeld none = Unit
  IsHeld (some job) =
      (is_selectable config roster key w w.status ≡ false)
      ⊎ (is_bare config roster key w (bids_used config roster key w job) ≡ true)

  status-IsQuiet :
      (o : Option (Option ℕ)) (job : Job) (s : State)
      → (is_selectable config roster key w o ≡ false)
        ⊎ (is_bare config roster key w (bids_used config roster key w job) ≡ true)
      → IsQuiet (on_status config roster key w o job s)
  unfolding on_status
  status-IsQuiet none job s h = (refl, refl)
  status-IsQuiet (some none) job s h = (refl, refl)
  status-IsQuiet (some (some n)) job s h = elim (Bool-cases (n == 0 || n == 1)) [
    | inl opens ↦ simp opens (open-IsQuiet job s (bare opens h))
    | inr shut ↦ simp shut (refl, refl)
  ]
    where
      bare :
          (n == 0 || n == 1) ≡ true
          → (is_selectable config roster key w (some (some n)) ≡ false)
            ⊎ (is_bare config roster key w (bids_used config roster key w job) ≡ true)
          → is_bare config roster key w (bids_used config roster key w job) ≡ true
      bare opens (inl shut) = absurd (false≢true (sym (rw opens at shut)))
      bare opens (inr none_there) = none_there

  job-IsQuiet : (o : Option Job) (s : State) → IsHeld o → IsQuiet (on_job config roster key w o s)
  unfolding on_job
  job-IsQuiet none s h = (refl, refl)
  job-IsQuiet (some job) s h = status-IsQuiet w.status job s h

  find-IsQuiet :
      (o : Option Job) (s : State)
      → IsHeld (found_job config roster key w o)
      → IsQuiet (find_job config roster key w o s)
  unfolding find_job
  find-IsQuiet none s h =
      let hydrated =
        hydrate config.is_address roster config.rehydrate w.hydration_bids w.chain_job in
      job-IsQuiet hydrated (keep_hydrated config roster key hydrated s) h
  find-IsQuiet (some job) s h = job-IsQuiet (some job) s h

  -- Where no job is found, its status on the chain is not known or neither 0 nor 1, or it has no bid, a
  -- run calls no `selectWinners` and announces nothing.
  pub run_select-IsQuiet :
      (s : State)
      → IsHeld (found_job config roster key w (Map.get key s.jobs))
      → IsQuiet (run_select config roster key w s)
  unfolding run_select clear_timer
  run_select-IsQuiet s h = find-IsQuiet (Map.get key s.jobs) (clear_timer config roster key s) h
