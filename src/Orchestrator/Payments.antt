-- ===== src/Orchestrator/Payments.antt =====
-- What `settleAll` sends to the chain.
use audit_guard.Prelude.{
  ℕ, ◌≤◌, String, ◌≡◌, refl, Bool, true, false, Option, none, some, List, [], ◌∷◌, ◌==◌, Bool-cases,
  inl, inr, All, ◌or_else◌, truthy, length, IsDistinct,
}
use audit_guard.Orchestrator.Roster.{Roster}
use audit_guard.Orchestrator.Settlement.{
  Score, Payment, Config, contributor_scores, positive_scores, payments_of,
}
use audit_guard.Orchestrator.Payout.{
  Chain, Job, Call, top_up, store_job, approve, deposit, settle, report, skipped, recipients,
  is_short, pay, pay_total, pay_scores, settle_winners, winner_set, settle_all,
}
use audit_guard.Orchestrator.Payees.{
  score_keys, payment_keys, payment_keys-payments_of, AllMember, keys-positive_scores,
}
use audit_guard.Orchestrator.Shares.{sum_base, sum_base-payments_of, contributor_scores-IsWinner}

All-pay :
    (P : Call → Type 0) (chain : Chain) (job : Job) (ps : List Payment) (agent : String)
    (n count : ℕ)
    → P top_up
    → P (approve n)
    → P (deposit n)
    → P (settle ps agent)
    → P store_job
    → P (report (recipients ps) agent count)
    → All P (pay chain job ps agent n count).calls
unfolding pay
All-pay P chain job ps agent n count p0 p1 p2 p3 p4 p5 = elim (Bool-cases chain.top_up_ok) [
  | inr e ↦ rw e (p0, tt)
  | inl e ↦ rw e elim (Bool-cases chain.allowance_ok) [
    | inr e1 ↦ rw e1 (p0, (p1, tt))
    | inl e1 ↦ rw e1 elim (Bool-cases chain.deposit_ok) [
      | inr e2 ↦ rw e2 (p0, (p1, (p2, tt)))
      | inl e2 ↦ rw e2 elim (Bool-cases chain.settle_ok) [
        | inr e3 ↦ rw e3 (p0, (p1, (p2, (p3, tt))))
        | inl e3 ↦ rw e3 (p0, (p1, (p2, (p3, (p4, (p5, tt))))))
      ]
    ]
  ]
]

-- What a call to the chain may be: an approval or a deposit is of the amount that the chain computes
-- for some payments, which is not 0 and which the balance, if it could be read, covers; a payment is
-- to winners, each once, to a valid report agent, and shares out no more than the pool.
abbrev pub IsDue : Chain → ℕ → Type 0
IsDue chain n =
    (ps : List Payment) × (agent : String) × (chain.preview ps agent ≡ some n)
    × ((n == 0) ≡ false)
    × (is_short chain.guard_balance n ≡ false)

module _ (is_address : String → Bool) (config : Config) (chain : Chain)
    (winners : List String) where
  abbrev pub IsFair : List Payment → String → Type 0
  IsFair ps agent =
      AllMember winners (payment_keys ps)
      × IsDistinct (payment_keys ps)
      × (sum_base ps ≤ config.total_pool)
      × (is_address agent ≡ true)

  abbrev pub IsAllowed : Call → Type 0
  IsAllowed (approve n) = IsDue chain n
  IsAllowed (deposit n) = IsDue chain n
  IsAllowed (settle ps agent) = IsFair ps agent
  IsAllowed _ = Unit

  pay-IsAllowed :
      (job : Job) (ps : List Payment) (agent : String) (n count : ℕ)
      → IsDue chain n
      → IsFair ps agent
      → All IsAllowed (pay chain job ps agent n count).calls
  pay-IsAllowed job ps agent n count due fair =
      All-pay IsAllowed chain job ps agent n count tt due due fair tt tt

  pay_total-IsAllowed :
      (job : Job) (ps : List Payment) (agent : String) (count : ℕ)
      → IsFair ps agent
      → All IsAllowed (pay_total chain job ps agent count (chain.preview ps agent)).calls
  unfolding pay_total skipped
  pay_total-IsAllowed job ps agent count fair = go (chain.preview ps agent) refl
    where
      go :
          (o : Option ℕ)
          → chain.preview ps agent ≡ o
          → All IsAllowed (pay_total chain job ps agent count o).calls
      go none e = tt
      go (some n) e = elim (Bool-cases (n == 0)) [
        | inl zero_total ↦ rw zero_total tt
        | inr due ↦ rw due elim (Bool-cases (is_short chain.guard_balance n)) [
          | inl short ↦ rw short tt
          | inr enough ↦
              rw enough (pay-IsAllowed job ps agent n count (ps, agent, e, due, enough) fair)
        ]
      ]

  pay_scores-IsAllowed :
      (orchestrator : String) (job : Job) (report_agent : Option String) (count : ℕ)
      (ss : List Score)
      → AllMember winners (score_keys ss) × IsDistinct (score_keys ss)
      → All IsAllowed
          (pay_scores is_address config orchestrator chain job report_agent count ss).calls
  unfolding pay_scores skipped
  pay_scores-IsAllowed orchestrator job report_agent count [] h = tt
  pay_scores-IsAllowed orchestrator job report_agent count (s ∷ ss) h =
      let agent = truthy report_agent or_else orchestrator in
      let ps = payments_of config (s ∷ ss) in
      elim (Bool-cases (is_address agent)) [
        | inr bad ↦ rw bad tt
        | inl good ↦ rw good (
            pay_total-IsAllowed job ps agent count (
              rw (payment_keys-payments_of config (s ∷ ss))
                (h.0, h.1, sum_base-payments_of config (s ∷ ss), good)))
      ]

  settle_keys-IsAllowed :
      (orchestrator : String) (roster : Roster) (job : Job) (report_agent : Option String)
      → (ws : List String)
      → AllMember winners
          (score_keys (positive_scores (contributor_scores is_address roster ws job.findings)))
        × IsDistinct
            (score_keys (positive_scores (contributor_scores is_address roster ws job.findings)))
      → All IsAllowed
          (settle_winners is_address config orchestrator roster chain job report_agent ws).calls
  unfolding settle_winners skipped
  settle_keys-IsAllowed orchestrator roster job report_agent [] keys = tt
  settle_keys-IsAllowed orchestrator roster job report_agent (w ∷ ws) keys =
      pay_scores-IsAllowed orchestrator job report_agent (length (w ∷ ws)) _ keys

  settle_winners-IsAllowed :
      (orchestrator : String) (roster : Roster) (job : Job) (report_agent : Option String)
      → All IsAllowed
          (settle_winners is_address config orchestrator roster chain job report_agent
            winners).calls
  settle_winners-IsAllowed orchestrator roster job report_agent =
      let scored = contributor_scores-IsWinner winners is_address roster job.findings in
      settle_keys-IsAllowed orchestrator roster job report_agent winners
        (keys-positive_scores winners _ scored.0 scored.1)

-- Every call of a settlement is allowed: an approval or a deposit is of an amount that the chain
-- previews for some payments, that is not 0 and that the balance covers if it could be read; the
-- payments are to winners of the job, no address twice, their base payments add up to the pool at
-- most, and the report agent's address is valid.
pub settle_all-IsAllowed :
    (is_address : String → Bool) (config : Config) (orchestrator : String)
    → (roster : Roster) (chain : Chain) (job : Job) (report_agent : Option String)
    → All
        (IsAllowed is_address config chain (winner_set job))
        (settle_all is_address config orchestrator roster chain job report_agent).calls
unfolding settle_all skipped
settle_all-IsAllowed is_address config orchestrator roster chain job report_agent =
    elim (Bool-cases (length job.findings == 0)) [
      | inl none_found ↦ rw none_found tt
      | inr found ↦ rw found elim (Bool-cases job.settled) [
        | inl settled ↦ rw settled tt
        | inr unsettled ↦ simp unsettled elim (Bool-cases (chain.is_job_settled or_else false)) [
          | inl on_chain ↦ rw on_chain (tt, tt)
          | inr off_chain ↦ rw off_chain (
              settle_winners-IsAllowed is_address config chain (winner_set job) orchestrator roster
                job report_agent)
        ]
      ]
    ]
