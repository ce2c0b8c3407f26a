-- ===== src/Orchestrator/Selecting/Calls.antt =====
-- What the retry loop of `selectWinnersOnChain` in orchestrator/src/orchestrator.js calls, and how it
-- ends.
use audit_guard.Prelude.{
  ℕ, zero, suc, ◌+◌, ◌≤◌, ◌≡◌, refl, String, true, Option, none, some, List, [], ◌∷◌, ◌++◌, ◌==◌,
  ◌||◌, ◌&&◌, false, not, ◌⊎◌, inl, inr, arith, Bool-cases, All,
}
use audit_guard.Prelude.Map
use audit_guard.Orchestrator.Errors.{is_insufficient_funds, is_retriable}
use audit_guard.Orchestrator.Roster.{Roster}
use audit_guard.Orchestrator.Choosing.{Scored, winning_indices}
use audit_guard.Orchestrator.Winners.{Cache, Announcement}
use audit_guard.Orchestrator.Hydration.{Job}
use audit_guard.Orchestrator.Selecting.{
  Config, State, Step, top_up, select_winners, timing, Answer, receipt, throws, World, Run, behind,
  set_job, cool, fail_with, publish_then, announcement_of, announce_steps, assign_to, assignments,
  pause, give_up, succeed, after_error, after_select, attempt_select, attempt_all, success,
}
use audit_guard.Orchestrator.Selecting.Counts.{
  call, announcement, sum_of, sum_of-append, IsCallFor, All-append,
}

module _ (config : Config) (roster : Roster) (key : String) (w : World)
    (winners : List Scored) where
  abbrev pub indices : List ℕ
  indices = winning_indices winners

  -- No address of a winner is valid, or they were announced within the window, or their transaction was.
  abbrev pub IsKnown : Cache → Type 0
  IsKnown cache =
      (hash : Option String) × ((announcement_of config roster key w winners hash cache).1 ≡ none)

  -- The winners are announced once, or there is nothing to announce.
  abbrev pub IsAnnounced : Cache → ℕ → Type 0
  IsAnnounced cache n = (n ≡ 1) ⊎ ((n ≡ 0) × IsKnown cache)

  -- The key is in its cooldown, or the audit log refused a message of the failure.
  abbrev pub IsCooling : State → Type 0
  IsCooling s =
      (Map.get key s.cooldown ≡ some (w.now_ms + config.cooldown_ms))
      ⊎ ((w.tx_failed_taken && w.job_failed_taken) ≡ false)

  -- The winners come from the chain and are announced, or the job has failed and nothing is announced.
  abbrev pub IsDecided : Cache → Run → Type 0
  IsDecided cache r =
      (job : Job) × (Map.get key r.state.jobs ≡ some job)
      × (((job.winner_source ≡ some "on-chain") × IsAnnounced cache (sum_of announcement r.steps))
          ⊎ ((job.failed ≡ true) × (sum_of announcement r.steps ≡ 0) × IsCooling r.state))

  abbrev pub IsGood : Cache → ℕ → Run → Type 0
  IsGood cache most r =
      (sum_of call r.steps ≤ most) × All (IsCallFor indices) r.steps × IsDecided cache r

  more-IsAnnounced :
      (cache : Cache) (n m k : ℕ) → k ≡ 0 → m ≡ k + n → IsAnnounced cache n → IsAnnounced cache m
  more-IsAnnounced cache n m k e f (inl one) = inl (omega (arith, e, f, one))
  more-IsAnnounced cache n m k e f (inr (quiet, known)) = inr (omega (arith, e, f, quiet), known)

  -- Steps before the others: so many calls, for these indices, and nothing announced.
  abbrev IsPrelude : ℕ → List Step → Type 0
  IsPrelude n steps =
      (sum_of call steps ≤ n) × All (IsCallFor indices) steps × (sum_of announcement steps ≡ 0)

  append-IsPrelude :
      (n m : ℕ) (xs ys : List Step) → IsPrelude n xs → IsPrelude m ys → IsPrelude (n + m) (xs ++ ys)
  append-IsPrelude n m xs ys h k = (
    omega (arith, sum_of-append call xs ys, h.0, k.0),
    All-append (IsCallFor indices) xs ys h.1 k.1,
    omega (arith, sum_of-append announcement xs ys, h.2, k.2),
  )

  pause-IsPrelude : (e : String) (attempt : ℕ) → IsPrelude 0 (pause config roster key e attempt)
  unfolding pause
  pause-IsPrelude e attempt = elim (Bool-cases (is_insufficient_funds e)) [
    | inl low ↦ simp low (omega arith, (tt, (tt, tt)), omega arith)
    | inr other ↦ simp other (omega arith, (tt, tt), omega arith)
  ]

  pub behind-IsGood :
      (cache : Cache) (n m : ℕ) (front : List Step) (r : Run)
      → IsPrelude n front
      → IsGood cache m r
      → IsGood cache (n + m) (behind front r)
  unfolding behind
  behind-IsGood cache n m front r h (few, right, (job, there, decided)) =
      let sums = sum_of-append announcement front r.steps in
      (
        omega (arith, sum_of-append call front r.steps, h.0, few),
        All-append (IsCallFor indices) front r.steps h.1 right,
        (
          job,
          there,
          elim decided [
            | inl won ↦ inl (
              won.0,
              more-IsAnnounced cache (sum_of announcement r.steps)
                  (sum_of announcement (front ++ r.steps)) (sum_of announcement front) h.2 sums
                  won.1,
            )
            | inr lost ↦ inr (lost.0, omega (arith, sums, h.2, lost.1), lost.2)
          ],
        ),
      )

  give_up-IsGood :
      (cache : Cache) (e : String) (job : Job) (s : State)
      → IsGood cache 0 (give_up config roster key w e job s)
  unfolding give_up set_job cool fail_with publish_then behind
  give_up-IsGood cache e job s = elim (Bool-cases w.tx_failed_taken) [
    | inl first ↦ elim (Bool-cases w.job_failed_taken) [
      | inl second ↦
          simp (first, second)
            (
              omega arith,
              (tt, (tt, (tt, tt))),
              (
                _,
                Map.get-set_self key _ s.jobs,
                inr (refl, omega arith, inl (Map.get-set_self key _ s.cooldown)),
              ),
            )
      | inr refused ↦
          simp (first, refused)
            (
              omega arith,
              (tt, (tt, (tt, tt))),
              (_, Map.get-set_self key _ s.jobs, inr (refl, omega arith, inr refl)),
            )
    ]
    | inr refused ↦ simp refused (
      omega arith,
      (tt, (tt, tt)),
      (_, Map.get-set_self key _ s.jobs, inr (refl, omega arith, inr refl)),
    )
  ]

  assign_to-IsPrelude :
      (o winner : Option String) (rest : List Step)
      → IsPrelude 0 rest
      → IsPrelude 0 (assign_to config roster key o winner rest)
  unfolding assign_to
  assign_to-IsPrelude none winner rest h = h
  assign_to-IsPrelude (some endpoint) winner rest h =
      (omega (arith, h.0), (tt, h.1), omega (arith, h.2))

  assignments-IsPrelude : (ws : List Scored) → IsPrelude 0 (assignments config roster key ws)
  unfolding assignments
  assignments-IsPrelude [] = (omega arith, tt, refl)
  assignments-IsPrelude (x ∷ ws) =
      assign_to-IsPrelude _ x.bid.evm_address (assignments config roster key ws)
        (assignments-IsPrelude ws)

  announce_steps-IsAnnounced :
      (hash : Option String) (cache : Cache) (o : Option Announcement) (rest : List Step)
      → (announcement_of config roster key w winners hash cache).1 ≡ o
      → IsPrelude 0 rest
      → let steps = announce_steps config roster key o ++ rest in
        (sum_of call steps ≤ 0)
        × All (IsCallFor indices) steps
        × IsAnnounced cache (sum_of announcement steps)
  unfolding announce_steps
  announce_steps-IsAnnounced hash cache none rest e h = (h.0, h.1, inr (h.2, (hash, e)))
  announce_steps-IsAnnounced hash cache (some a) rest e h =
      (omega (arith, h.0), (tt, h.1), inl (omega (arith, h.2)))

  succeed-IsGood :
      (hash : Option String) (attempt : ℕ) (job : Job) (s : State)
      → IsGood s.announced 0 (succeed config roster key w winners hash attempt job s)
  unfolding succeed set_job
  succeed-IsGood hash attempt job s =
      let end = timing attempt success none ∷ [] in
      let rest =
        append-IsPrelude 0 0 (assignments config roster key winners) end
          (assignments-IsPrelude winners) (omega arith, (tt, tt), refl) in
      let (few, right, told) =
        announce_steps-IsAnnounced hash s.announced
          (announcement_of config roster key w winners hash s.announced).1
          (assignments config roster key winners ++ end) refl rest in
      (few, right, (_, Map.get-set_self key _ s.jobs, inl (refl, told)))

  -- An attempt that threw, given that the loop's next turn is good.
  after_error-IsGood :
      (steps : List Step) (next : Run) (left attempt : ℕ) (e : String) (job : Job) (s : State)
      → left + attempt ≡ 3
      → IsPrelude 1 steps
      → ((attempt == 3) ≡ false → IsGood s.announced left next)
      → IsGood s.announced (suc left) (after_error config roster key w steps next attempt e job s)
  unfolding after_error
  after_error-IsGood steps next left attempt e job s sum one ih =
      elim (Bool-cases (not (is_retriable e) || attempt == 3)) [
        | inl stop ↦
            let (few, right, decided) =
              behind-IsGood s.announced 1 0 steps (give_up config roster key w e job s) one
                (give_up-IsGood s.announced e job s) in
            simp stop (omega (arith, few), right, decided)
        | inr go ↦
            let (few, right, decided) =
              behind-IsGood s.announced (1 + 0) left (steps ++ pause config roster key e attempt)
                next
                (append-IsPrelude 1 0 steps (pause config roster key e attempt) one
                  (pause-IsPrelude e attempt))
                (ih (ground (arith, go))) in
            simp go (omega (arith, few), right, decided)
      ]

  attempt-IsGood :
      (next : Run) (left attempt : ℕ) (o : Option String) (a : Answer) (job : Job) (s : State)
      → left + attempt ≡ 3
      → ((attempt == 3) ≡ false → IsGood s.announced left next)
      → IsGood s.announced
          (suc left)
          (attempt_select config roster key w winners next attempt o a job s)
  unfolding attempt_select after_select
  attempt-IsGood next left attempt (some e) a job s sum ih =
      after_error-IsGood (top_up ∷ []) next left attempt e job s sum (omega arith, (tt, tt), refl)
        ih
  attempt-IsGood next left attempt none (throws e) job s sum ih =
      after_error-IsGood (top_up ∷ select_winners indices ∷ []) next left attempt e job s sum
        (omega arith, (tt, (refl, tt)), refl) ih
  attempt-IsGood next left attempt none (receipt hash) job s sum ih =
      let front = top_up ∷ select_winners indices ∷ [] in
      let (few, right, decided) =
        behind-IsGood s.announced 1 0 front (succeed config roster key w winners hash attempt job s)
          (omega arith, (tt, (refl, tt)), refl) (succeed-IsGood hash attempt job s) in
      (omega (arith, few), right, decided)

  pub attempt_all-IsGood :
      (left attempt : ℕ) (job : Job) (s : State)
      → left + attempt ≡ 3
      → IsGood s.announced
          (suc left)
          (attempt_all config roster key w winners (suc left) attempt job s)
  unfolding attempt_all
  attempt_all-IsGood zero attempt job s sum =
      let a = w.attempts attempt in
      attempt-IsGood _ 0 attempt a.top_up_error a.answer job s sum (λ h. absurd (ground arith))
  attempt_all-IsGood (suc left) attempt job s sum =
      let a = w.attempts attempt in
      let ih = attempt_all-IsGood left (attempt + 1) job s (omega (arith, sum)) in
      attempt-IsGood (attempt_all config roster key w winners (suc left) (attempt + 1) job s)
        (suc left) attempt a.top_up_error a.answer job s sum (λ h. ih)
