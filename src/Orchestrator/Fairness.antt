-- ===== src/Orchestrator/Fairness.antt =====
-- A normal task of the write queue is not passed over for ever (orchestrator/src/contract-client.js).
use audit_guard.Prelude.{
  ℕ, ◌+◌, ◌-◌, ◌<◌, ◌≡◌, refl, Bool, true, false, Option, none, some, List, [], ◌∷◌, ◌++◌, ◌&&◌,
  ltb, leb, arith, Bool-cases, inl, inr, length, ◌∙◌, if_both, any, not, ◌⊎◌, ap,
}
use audit_guard.Orchestrator.WriteQueue.{
  Priority, high, normal, Task, is_high, WriteQueue, insert_high, enqueue, take_normal, behind,
  or_shift, shift, choose, dequeue, next_streak, served, turn,
}
use audit_guard.Orchestrator.SendOrder.{to_list, take_normal_lem}

abbrev pub enqueue_all : {A : Type 0} → List (Task A) → WriteQueue A → WriteQueue A
enqueue_all [] q = q
enqueue_all (t ∷ ts) q = enqueue_all ts (enqueue t q)

module _ {A : Type 0} where
  -- Turns of the loop in which every send succeeds, new tasks coming in before each.
  pub serve : List (List (Task A)) → WriteQueue A → List (Task A)
  serve [] q = []
  serve (arrivals ∷ rounds) q =
      let (q', task) = turn true (enqueue_all arrivals q) in to_list task ++ serve rounds q'

abbrev pub is_normal : {A : Type 0} → Task A → Bool
is_normal t = not (is_high t.priority)

high_streak : (p : Priority) (n : ℕ) → not (is_high p) ≡ false → next_streak true p n ≡ n + 1
unfolding next_streak
high_streak high n h = refl
high_streak normal n h = cc

module _ {A : Type 0} where
  any-insert_high :
      (t : Task A) (ts : List (Task A))
      → any is_normal ts ≡ true
      → any is_normal (insert_high t ts) ≡ true
  unfolding insert_high
  any-insert_high t [] h = cc
  any-insert_high t (u ∷ us) h = ground (arith, any-insert_high t us)

  any-snoc :
      (t : Task A) (ts : List (Task A))
      → any is_normal ts ≡ true
      → any is_normal (ts ++ t ∷ []) ≡ true
  any-snoc t [] h = cc
  any-snoc t (u ∷ us) h = ground (arith, any-snoc t us)

  -- A normal task waits, on the fast path, with the streak at `n` of `most`.
  pub record IsWaiting (most n : ℕ) (q : WriteQueue A) : Type 0 where
    pub fast : q.fast ≡ true
    pub most_is : q.max_high_streak ≡ most
    pub streak_is : q.streak ≡ n
    pub normal_waits : any is_normal q.tasks ≡ true

  enqueue-IsWaiting :
      (most n : ℕ) (t : Task A) (q : WriteQueue A)
      → IsWaiting most n q
      → IsWaiting most n (enqueue t q)
  unfolding enqueue
  enqueue-IsWaiting most n t q h = record {
    fast = h.fast;
    most_is = h.most_is;
    streak_is = h.streak_is;
    normal_waits =
        if_both (λ (ts : List (Task A)). any is_normal ts ≡ true) (q.fast && is_high t.priority)
          (any-insert_high t q.tasks h.normal_waits) (any-snoc t q.tasks h.normal_waits);
  }

  enqueue_all-IsWaiting :
      (most n : ℕ) (ts : List (Task A)) (q : WriteQueue A)
      → IsWaiting most n q
      → IsWaiting most n (enqueue_all ts q)
  enqueue_all-IsWaiting most n [] q h = h
  enqueue_all-IsWaiting most n (t ∷ ts) q h =
      enqueue_all-IsWaiting most n ts (enqueue t q) (enqueue-IsWaiting most n t q h)

  -- What a turn does while a normal task waits: it sends one, or it adds to the streak.
  abbrev Progress : ℕ → ℕ → WriteQueue A × Option (Task A) → Type 0
  Progress most n (q, none) = ⊥
  Progress most n (q, some t) = (is_normal t ≡ true) ⊎ ((n < most) × IsWaiting most (n + 1) q)

  none_normal : (ts : List (Task A)) → take_normal ts ≡ none → any is_normal ts ≡ false
  unfolding take_normal behind
  none_normal [] e = refl
  none_normal (t ∷ ts) e = ground (arith, none_normal ts)

  Progress-shift :
      (most n : ℕ) (q : WriteQueue A) (ts : List (Task A))
      → any is_normal ts ≡ true
      → n < most
      → IsWaiting most n q
      → Progress most n (served true q (shift ts))
  unfolding served shift next_streak
  Progress-shift most n q [] w lt h = cc
  Progress-shift most n q (t ∷ ts) w lt h = elim (Bool-cases (is_normal t)) [
    | inl sends ↦ inl sends
    | inr passes ↦ inr (
      lt,
      record {
        fast = h.fast;
        most_is = h.most_is;
        streak_is =
            ap (λ (k : ℕ). next_streak true t.priority k) h.streak_is
            ∙ high_streak t.priority n passes;
        normal_waits = ground arith;
      },
    )
  ]

  Progress-normal :
      (most n : ℕ) (q : WriteQueue A) (o : Option (Task A × List (Task A)))
      → take_normal q.tasks ≡ o
      → IsWaiting most n q
      → Progress most n (served true q (or_shift o q.tasks))
  unfolding or_shift served
  Progress-normal most n q none e h = cc (none_normal q.tasks e, h.normal_waits)
  Progress-normal most n q (some (t, rest)) e h =
      inl (ground (arith, (take_normal_lem normal q.tasks t rest e).0))

  Progress-turn :
      (most n : ℕ) (q : WriteQueue A)
      → 0 < most
      → IsWaiting most n q
      → Progress most n (turn true q)
  unfolding turn dequeue choose
  Progress-turn most n q pos h =
      elim (Bool-cases (q.fast && ltb 0 q.max_high_streak && leb q.max_high_streak q.streak)) [
        | inl full ↦ rw full (Progress-normal most n q (take_normal q.tasks) refl h)
        | inr free ↦ rw free (Progress-shift most n q q.tasks h.normal_waits (ground arith) h)
      ]

  serve_lem :
      (most n : ℕ) (rounds : List (List (Task A))) (q : WriteQueue A)
      → 0 < most
      → IsWaiting most n q
      → most - n < length rounds
      → any is_normal (serve rounds q) ≡ true
  unfolding serve
  serve_lem most n [] q pos h enough = elim enough [ ]
  serve_lem most n (arrivals ∷ rounds) q pos h enough =
      go (turn true (enqueue_all arrivals q))
        (Progress-turn most n (enqueue_all arrivals q) pos
          (enqueue_all-IsWaiting most n arrivals q h))
        (λ q' lt w. serve_lem most (n + 1) rounds q' pos w (omega arith))
    where
      go :
          (r : WriteQueue A × Option (Task A))
          → Progress most n r
          → ((q' : WriteQueue A)
              → n < most
              → IsWaiting most (n + 1) q'
              → any is_normal (serve rounds q') ≡ true)
          → any is_normal (to_list r.1 ++ serve rounds r.0) ≡ true
      go (q', none) p ih = absurd p
      go (q', some t) (inl sends) ih = ground arith
      go (q', some t) (inr (lt, w)) ih = ground (arith, ih q' lt w)

  -- A normal task is not starved on the fast path: while one waits and the sends succeed, one of
  -- the next `max_high_streak - streak + 1` tasks that are sent is normal, whatever tasks come in.
  pub serve_normal :
      (rounds : List (List (Task A))) (q : WriteQueue A)
      → q.fast ≡ true
      → 0 < q.max_high_streak
      → any is_normal q.tasks ≡ true
      → q.max_high_streak - q.streak < length rounds
      → any is_normal (serve rounds q) ≡ true
  serve_normal rounds q fast pos waits enough =
      serve_lem q.max_high_streak q.streak rounds q pos
        (record { fast = fast; most_is = refl; streak_is = refl; normal_waits = waits }) enough
