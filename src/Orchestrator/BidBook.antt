-- ===== src/Orchestrator/BidBook.antt =====
-- No bidder stands twice in a job's bids (`handleBidSubmitted` of orchestrator/src/orchestrator.js).
use mathlib.Core.List.{foldl}
use audit_guard.Prelude.{
  ℕ, String, ◌≡◌, refl, Bool, false, Option, none, some, List, [], ◌∷◌, ◌++◌, ◌===◌, arith, not,
  Bool-cases, inl, inr, All, All-snoc, length, is_empty, if◌then◌else◌, length-append,
}
use audit_guard.Prelude.Map
use audit_guard.Prelude.Map.{Map}
use audit_guard.Orchestrator.Address.{normalize_address, valid}
use audit_guard.Orchestrator.Roster.{Agent, Roster}
use audit_guard.Orchestrator.Bids.{
  Bid, Job, Message, Duplicate, no_duplicate, duplicate_agent_id, duplicate_evm_address, Verdict,
  missing_job_id, no_open_job, address_mismatch, low_stake, invalid_amount, deduped, recorded,
  same_address, duplicate_reason, resolve_address, new_bid, record_bid, judge_bid, judge,
  store_verdict, handle_bid_submitted, is_open, mismatches, is_understaked, is_invalid_amount,
  first_of, agent_address,
}

module _ (is_address : String → Bool) where
  -- Two bids of different agents, whose addresses differ in more than case where both are valid.
  abbrev pub IsApart : Bid → Bid → Type 0
  IsApart b c =
      ((b.agent_id === c.agent_id) ≡ false)
      × (same_address is_address (normalize_address is_address c.evm_address) b ≡ false)

  abbrev pub IsFair : List Bid → Type 0
  IsFair [] = Unit
  IsFair (b ∷ bs) = All (IsApart b) bs × IsFair bs

  -- The bids of a job are fair, and the job counts them.
  abbrev pub IsSound : Job → Type 0
  IsSound job = IsFair job.bidders × (job.hcs_bid_count ≡ length job.bidders)

  -- A bid that every earlier one is apart from.
  abbrev IsNew : Bid → List Bid → Type 0
  IsNew c bs = All (λ b. IsApart b c) bs

  IsFair-snoc : (c : Bid) (bs : List Bid) → IsFair bs → IsNew c bs → IsFair (bs ++ c ∷ [])
  IsFair-snoc c [] h new = (tt, tt)
  IsFair-snoc c (b ∷ bs) h new = (All-snoc (IsApart b) c bs h.0 new.0, IsFair-snoc c bs h.1 new.1)

  duplicate_reason-IsNew :
      (c : Bid) (id resolved : String) (bs : List Bid)
      → c.agent_id ≡ id
      → normalize_address is_address c.evm_address ≡ resolved
      → duplicate_reason is_address id resolved bs ≡ no_duplicate
      → IsNew c bs
  unfolding duplicate_reason
  duplicate_reason-IsNew c id resolved [] same here e = tt
  duplicate_reason-IsNew c id resolved (b ∷ bs) same here e =
      elim (Bool-cases (b.agent_id === id)) [
        | inl id_taken ↦ cc
        | inr id_free ↦ elim (Bool-cases (same_address is_address resolved b)) [
          | inl taken ↦ cc
          | inr free ↦ (
            (rw same id_free, rw here free),
            duplicate_reason-IsNew c id resolved bs same here (rw (id_free, free) at e),
          )
        ]
      ]

  normalize-kept :
      (value : Option String)
      → normalize_address is_address (
          if is_empty (normalize_address is_address value)
          then value
          else some (normalize_address is_address value))
        ≡ normalize_address is_address value
  unfolding normalize_address valid
  normalize-kept none = refl
  normalize-kept (some t) = elim (Bool-cases (is_empty t)) [
    | inl blank ↦ rw blank (rw blank refl)
    | inr text ↦ rw text elim (Bool-cases (is_address t)) [
      | inl good ↦ rw good (rw text (rw text (rw good refl)))
      | inr bad ↦ rw bad (rw text (rw bad refl))
    ]
  ]

  new_bid-address :
      (now : ℕ) (m : Message) (agent : Option Agent)
      → normalize_address is_address (new_bid is_address now m agent).evm_address
        ≡ resolve_address is_address m agent
  unfolding new_bid resolve_address
  new_bid-address now m agent = normalize-kept (first_of m.evm_address (agent_address agent))

  abbrev IsSoundVerdict : Verdict → Type 0
  IsSoundVerdict (recorded job) = IsSound job
  IsSoundVerdict _ = Unit

  record_bid-IsSound :
      (now : ℕ) (m : Message) (agent : Option Agent) (job : Job)
      → IsSound job
      → (d : Duplicate)
      → duplicate_reason is_address m.agent_id (resolve_address is_address m agent) job.bidders ≡ d
      → IsSoundVerdict (record_bid is_address now m agent job d)
  unfolding record_bid
  record_bid-IsSound now m agent job h no_duplicate e =
      let bid = new_bid is_address now m agent in
      (
        IsFair-snoc bid job.bidders h.0 (
            duplicate_reason-IsNew bid m.agent_id (resolve_address is_address m agent) job.bidders
              (unfold new_bid in refl) (new_bid-address now m agent) e),
        omega (arith, h.1, length-append job.bidders (bid ∷ [])),
      )
  record_bid-IsSound now m agent job h duplicate_agent_id e = tt
  record_bid-IsSound now m agent job h duplicate_evm_address e = tt

  judge_bid-IsSound :
      (now min_stake : ℕ) (roster : Roster) (m : Message) (job : Job)
      → IsSound job
      → IsSoundVerdict (judge_bid is_address now min_stake roster m (some job))
  unfolding judge_bid
  judge_bid-IsSound now min_stake roster m job h =
      let agent = Map.get m.agent_id roster in
      elim (Bool-cases (not (is_open job))) [
        | inl e ↦ simp e tt
        | inr e ↦ simp e elim (Bool-cases (mismatches m.contract_address job.contract_address)) [
          | inl e1 ↦ simp e1 tt
          | inr e1 ↦ simp e1 elim (Bool-cases (is_understaked min_stake agent)) [
            | inl e2 ↦ simp e2 tt
            | inr e2 ↦ simp e2 elim (Bool-cases (is_invalid_amount m.bid_amount)) [
              | inl e3 ↦ simp e3 tt
              | inr e3 ↦ simp e3 (record_bid-IsSound now m agent job h _ refl)
            ]
          ]
        ]
      ]

  -- Every job's bids are sound.
  abbrev pub IsSoundJob : String → Job → Type 0
  IsSoundJob id job = IsSound job

  judge_job-IsSound :
      (now min_stake : ℕ) (roster : Roster) (m : Message) (jobs : Map Job)
      → Map.AllEntries IsSoundJob jobs
      → (o : Option Job) → Map.get m.job_id jobs ≡ o
      → IsSoundVerdict (judge_bid is_address now min_stake roster m o)
  judge_job-IsSound now min_stake roster m jobs h none e = unfold judge_bid in tt
  judge_job-IsSound now min_stake roster m jobs h (some job) e =
      judge_bid-IsSound now min_stake roster m job
        (Map.get-AllEntries IsSoundJob m.job_id job jobs h e)

  judge-IsSound :
      (now min_stake : ℕ) (roster : Roster) (m : Message) (jobs : Map Job)
      → Map.AllEntries IsSoundJob jobs
      → IsSoundVerdict (judge is_address now min_stake roster m jobs)
  unfolding judge
  judge-IsSound now min_stake roster m jobs h = elim (Bool-cases (is_empty m.job_id)) [
    | inl e ↦ rw e tt
    | inr e ↦ rw e (judge_job-IsSound now min_stake roster m jobs h _ refl)
  ]

  store_verdict-IsSound :
      (id : String) (jobs : Map Job) (v : Verdict)
      → Map.AllEntries IsSoundJob jobs
      → IsSoundVerdict v
      → Map.AllEntries IsSoundJob (store_verdict id jobs v)
  unfolding store_verdict
  store_verdict-IsSound id jobs (recorded job) h s = Map.set-AllEntries IsSoundJob id job jobs s h
  store_verdict-IsSound id jobs (deduped d) h s = h
  store_verdict-IsSound id jobs missing_job_id h s = h
  store_verdict-IsSound id jobs no_open_job h s = h
  store_verdict-IsSound id jobs address_mismatch h s = h
  store_verdict-IsSound id jobs low_stake h s = h
  store_verdict-IsSound id jobs invalid_amount h s = h

  -- A message, with the clock and the roster when it comes.
  abbrev pub arrive : ℕ → Map Job → ℕ × Roster × Message → Map Job
  arrive min_stake jobs (now, roster, m) =
      handle_bid_submitted is_address now min_stake roster jobs m

  -- If the bids of every job are sound, they are so after any bid messages, however the roster changes
  -- between them: no two bids of a job are from one agent or, up to case, from one valid address, and
  -- the job counts its bids.
  pub handle_bids-IsSound :
      (min_stake : ℕ) (arrivals : List (ℕ × Roster × Message)) (jobs : Map Job)
      → Map.AllEntries IsSoundJob jobs
      → Map.AllEntries IsSoundJob (foldl (arrive min_stake) jobs arrivals)
  unfolding handle_bid_submitted
  handle_bids-IsSound min_stake [] jobs h = h
  handle_bids-IsSound min_stake ((now, roster, m) ∷ arrivals) jobs h =
      handle_bids-IsSound min_stake arrivals _
        (store_verdict-IsSound m.job_id jobs _ h (judge-IsSound now min_stake roster m jobs h))
