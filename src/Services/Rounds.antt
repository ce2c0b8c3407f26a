-- ===== src/Services/Rounds.antt =====
-- The worker's progress: every job that waits is finished.
use audit_guard.Prelude.{
  ℕ, String, ◌≡◌, refl, none, some, List, [], ◌∷◌, arith, length, ◌===◌, eq_refl, if◌then◌else◌,
}
use mathlib.Core.Path.{subst₂}
use audit_guard.Services.Worker.{
  running, done, Service, Queue, start, start_next, finish, finish_current,
}
use audit_guard.Services.Schedule.{
  waits, IsScheduled, status_of, Scheduled, started, finished, start_status, finish_status,
  Step-Scheduled,
}

module _ {J : Type 0} (service : Service J) where
  -- Rounds of the worker: one job begins and ends in each, at the given times.
  abbrev pub rounds : List (ℕ × ℕ) → Queue J → Queue J
  rounds [] q = q
  rounds ((b, e) ∷ times) q = rounds times (finish service e (start service b q))

  start-eq :
      (b : ℕ) (id : String) (rest : List String) (q : Queue J)
      → q.waiting ≡ id ∷ rest
      → q.current ≡ none
      → start service b q ≡ start_next service b none (id ∷ rest) q
  unfolding start
  start-eq b id rest q w c = λ i. start_next service b (c i) (w i) q

  begun_status :
      (b e : ℕ) (id : String) (rest : List String) (q : Queue J)
      → IsScheduled (status_of service q) (id ∷ rest) none
      → (j : String)
      → status_of service
          (finish_current service e (some id) (start_next service b none (id ∷ rest) q))
          j
        ≡ (if id === j then some done else status_of service q j)
  begun_status b e id rest q h j =
      let begun : status_of service (start_next service b none (id ∷ rest) q) id ≡ some running =
        ground (arith, eq_refl id, start_status service b id rest q h id) in
      ground (
        arith,
        start_status service b id rest q h j,
        finish_status service e id (start_next service b none (id ∷ rest) q) begun j,
      )

  round_lem :
      (b e : ℕ) (id : String) (rest : List String) (q : Queue J)
      → Scheduled service q
      → q.waiting ≡ id ∷ rest
      → q.current ≡ none
      → let r = finish service e (start service b q) in
        (r.waiting ≡ rest)
        × (r.current ≡ none)
        × ((j : String)
            → status_of service r j ≡ (if id === j then some done else status_of service q j))
  round_lem b e id rest q h w c =
      let h' : IsScheduled (status_of service q) (id ∷ rest) none =
        subst₂ (IsScheduled (status_of service q)) w c h in
      rw (start-eq b id rest q w c)
        (unfold start_next finish finish_current in (refl, refl, begun_status b e id rest q h'))

  -- Given a round for each waiting job and no job running, the worker finishes every waiting job
  -- and touches no other: nothing waits or runs any more.
  pub rounds_lem :
      (times : List (ℕ × ℕ)) (q : Queue J)
      → Scheduled service q
      → q.current ≡ none
      → length times ≡ length q.waiting
      → let r = rounds times q in
        (r.waiting ≡ [])
        × (r.current ≡ none)
        × ((j : String)
            → status_of service r j
              ≡ (if waits j q.waiting then some done else status_of service q j))
  rounds_lem times q h c n = go times q.waiting q h refl c n
    where
      go :
          (times : List (ℕ × ℕ)) (ids : List String) (q : Queue J)
          → Scheduled service q
          → q.waiting ≡ ids
          → q.current ≡ none
          → length times ≡ length ids
          → let r = rounds times q in
            (r.waiting ≡ [])
            × (r.current ≡ none)
            × ((j : String)
                → status_of service r j
                  ≡ (if waits j ids then some done else status_of service q j))
      go [] [] q h w c n = (w, c, λ j. refl)
      go [] (id ∷ ids) q h w c n = absurd (omega arith)
      go (t ∷ times) [] q h w c n = absurd (omega arith)
      go ((b, e) ∷ times) (id ∷ ids) q h w c n =
          let r = round_lem b e id ids q h w c in
          let q' = finish service e (start service b q) in
          let h' = Step-Scheduled service (finished e) (Step-Scheduled service (started b) h) in
          let rest = go times ids q' h' r.0 r.1 (omega arith) in
          (rest.0, rest.1, λ j. ground (arith, rest.2 j, r.2 j))
