-- ===== src/Agents/JobLock/Rising.antt =====
-- The calls of the lock of agents/shared/job-lock.ts in the order of their numbers.
use audit_guard.Prelude.{
  ℕ, suc, ◌+◌, ◌≤◌, ◌<◌, ◌≡◌, refl, String, Option, none, some, List, [], ◌∷◌, ◌++◌, ◌==◌, ◌&&◌,
  not, inl, inr, arith, ◌===◌, Bool-cases,
}
use audit_guard.Prelude.Map
use audit_guard.Agents.JobLock.{
  Call, State, Event, enter, begin, finish, enter_lock, is_resolved, begin_call, finish_call,
  keep_call, keep_finished, after_begin, after_finish, step, run_from, run,
}

abbrev pub Precedes : Option ℕ → ℕ → Type 0
Precedes none n = Unit
Precedes (some p) n = p < n

-- The calls' numbers rise from `low` and stay below `high`, and each awaits an earlier one.
abbrev pub IsRising : ℕ → ℕ → List Call → Type 0
IsRising low high [] = low ≤ high
IsRising low high (c ∷ cs) = (low ≤ c.id) × Precedes c.previous c.id × IsRising (suc c.id) high cs

abbrev pub IsGood : State → Type 0
IsGood s = IsRising 0 s.next s.calls × ((k : String) → Precedes (Map.get k s.locks) s.next)

abbrev pub IsGoodIf : Option State → Type 0
IsGoodIf none = Unit
IsGoodIf (some s) = IsGood s

Precedes-later : (o : Option ℕ) (n m : ℕ) → n ≤ m → Precedes o n → Precedes o m
Precedes-later none n m le h = tt
Precedes-later (some p) n m le h = omega (arith, le, h)

IsRising-low :
    (low low' high : ℕ) (cs : List Call) → low' ≤ low → IsRising low high cs → IsRising low' high cs
IsRising-low low low' high [] le h = omega (arith, le, h)
IsRising-low low low' high (c ∷ cs) le h = (omega (arith, le, h.0), h.1, h.2)

IsRising-snoc :
    (low high : ℕ) (cs : List Call) (c : Call)
    → c.id ≡ high
    → Precedes c.previous high
    → IsRising low high cs
    → IsRising low (high + 1) (cs ++ c ∷ [])
IsRising-snoc low high [] c e p h = (omega (arith, e, h), rw e p, omega (arith, e))
IsRising-snoc low high (b ∷ cs) c e p h = (h.0, h.1, IsRising-snoc (suc b.id) high cs c e p h.2)

enter-IsGood : (key : String) (s : State) → IsGood s → IsGood (enter_lock key s)
unfolding enter_lock
enter-IsGood key s h = (
  IsRising-snoc 0 s.next s.calls _ refl (h.1 key) h.0,
  λ k. elim (Bool-cases (key === k)) [
    | inl same ↦ simp (Map.get-set, same) (omega arith)
    | inr other ↦
        simp (Map.get-set, other)
          (Precedes-later (Map.get k s.locks) s.next (s.next + 1) (omega arith) (h.1 k))
  ],
)

-- The calls that are left rise from the same number.
abbrev Rises : ℕ → ℕ → Option (List Call) → Type 0
Rises low high none = Unit
Rises low high (some cs) = IsRising low high cs

kept-Rises :
    (c : Call) (low high : ℕ) (o : Option (List Call))
    → low ≤ c.id
    → Precedes c.previous c.id
    → Rises (suc c.id) high o
    → Rises low high (keep_call c o)
unfolding keep_call
kept-Rises c low high none le p r = tt
kept-Rises c low high (some cs) le p r = (le, p, r)

begin-Rises :
    (id : ℕ) (calls : List Call) (low high : ℕ) (cs : List Call)
    → IsRising low high cs
    → Rises low high (begin_call id calls cs)
unfolding begin_call
begin-Rises id calls low high [] h = tt
begin-Rises id calls low high (c ∷ cs) h = elim (Bool-cases (c.id == id)) [
  | inl it ↦ elim (Bool-cases (not c.running && is_resolved c.previous calls)) [
    | inl can ↦ simp (it, can) h
    | inr cannot ↦ simp (it, cannot) tt
  ]
  | inr other ↦ simp other (
      kept-Rises c low high (begin_call id calls cs) h.0 h.1
        (begin-Rises id calls (suc c.id) high cs h.2))
]

abbrev calls_of : Option (String × List Call) → Option (List Call)
calls_of none = none
calls_of (some r) = some r.1

kept-calls :
    (c : Call) (o : Option (String × List Call))
    → calls_of (keep_finished c o) ≡ keep_call c (calls_of o)
unfolding keep_finished keep_call
kept-calls c none = refl
kept-calls c (some r) = refl

finish-Rises :
    (id low high : ℕ) (cs : List Call)
    → IsRising low high cs
    → Rises low high (calls_of (finish_call id cs))
unfolding finish_call
finish-Rises id low high [] h = tt
finish-Rises id low high (c ∷ cs) h = elim (Bool-cases (c.id == id)) [
  | inl it ↦ elim (Bool-cases c.running) [
    | inl runs ↦ simp (it, runs) (IsRising-low (suc c.id) low high cs (omega (arith, h.0)) h.2)
    | inr waits ↦ simp (it, waits) tt
  ]
  | inr other ↦
      simp (other, kept-calls)
        (kept-Rises c low high (calls_of (finish_call id cs)) h.0 h.1
          (finish-Rises id (suc c.id) high cs h.2))
]

begun-IsGood :
    (s : State) (o : Option (List Call)) → Rises 0 s.next o → IsGood s → IsGoodIf (after_begin s o)
unfolding after_begin
begun-IsGood s none r h = tt
begun-IsGood s (some cs) r h = (r, h.1)

finished-IsGood :
    (s : State) (o : Option (String × List Call))
    → Rises 0 s.next (calls_of o)
    → IsGood s
    → IsGoodIf (after_finish s o)
unfolding after_finish
finished-IsGood s none r h = tt
finished-IsGood s (some (key, cs)) r h = (
  r,
  λ k. elim (Bool-cases (key === k)) [
    | inl same ↦ simp (Map.get-delete, same) tt
    | inr other ↦ simp (Map.get-delete, other) (h.1 k)
  ],
)

step-IsGood : (e : Event) (s : State) → IsGood s → IsGoodIf (step e s)
unfolding step
step-IsGood (enter key) s h = enter-IsGood key s h
step-IsGood (begin id) s h =
    begun-IsGood s (begin_call id s.calls s.calls) (begin-Rises id s.calls 0 s.next s.calls h.0) h
step-IsGood (finish id) s h =
    finished-IsGood s (finish_call id s.calls) (finish-Rises id 0 s.next s.calls h.0) h

pub run-IsGood : (es : List Event) (s : State) → IsGood s → IsGoodIf (run es s)
unfolding run run_from
run-IsGood [] s h = h
run-IsGood (e ∷ es) s h = from (step e s) (λ s' good. run-IsGood es s' good) (step-IsGood e s h)
  where
    from :
        (o : Option State)
        → ((s' : State) → IsGood s' → IsGoodIf (run es s'))
        → IsGoodIf o
        → IsGoodIf (run_from (run es) o)
    from none ih good = tt
    from (some s') ih good = ih s' good
