-- ===== src/Agents/JobLock/Progress.antt =====
-- No call of the lock of agents/shared/job-lock.ts has to wait for ever.
use audit_guard.Prelude.{
  ℕ, suc, ◌*◌, ◌≤◌, ◌<◌, ◌≡◌, refl, true, false, Option, none, some, List, [], ◌∷◌, ◌==◌, inl, inr,
  arith, Bool-cases, length,
}
use audit_guard.Prelude.Map
use audit_guard.Prelude.Map.{Map}
use audit_guard.Agents.JobLock.{
  Call, State, Event, begin, finish, start, is_pending, is_resolved, begin_call, finish_call,
  after_begin, after_finish, step, run_from, run,
}
use audit_guard.Agents.JobLock.Rising.{Precedes, IsRising, IsGood, run-IsGood}

-- An earlier call than all of these is over.
early-is_pending :
    (p low high : ℕ) (cs : List Call) → p < low → IsRising low high cs → is_pending p cs ≡ false
unfolding is_pending
early-is_pending p low high [] less h = refl
early-is_pending p low high (c ∷ cs) less h =
    ground (arith, h.0, less, early-is_pending p (suc c.id) high cs (omega (arith, h.0, less)) h.2)

head-is_resolved :
    (o : Option ℕ) (low high : ℕ) (c : Call) (cs : List Call)
    → Precedes o c.id
    → IsRising low high (c ∷ cs)
    → is_resolved o (c ∷ cs) ≡ true
unfolding is_resolved
head-is_resolved none low high c cs p h = refl
head-is_resolved (some n) low high c cs p h =
    simp (early-is_pending n c.id high (c ∷ cs) p (omega arith, h.1, h.2)) refl

-- Events which end all calls of a state, two for each of them at most.
abbrev pub CanEnd : State → Type 0
CanEnd s =
    (es : List Event) × (s' : State) × (run es s ≡ some s')
    × (s'.calls ≡ [])
    × (length es ≤ 2 * length s.calls)

abbrev state_of : Map ℕ → ℕ → List Call → State
state_of locks next calls = record { locks = locks; calls = calls; next = next }

same_id : (n : ℕ) → (n == n) ≡ true
same_id n = ground arith

head-begin_call :
    (low high : ℕ) (c : Call) (cs : List Call)
    → IsRising low high (c ∷ cs)
    → c.running ≡ false
    → begin_call c.id (c ∷ cs) (c ∷ cs) ≡ some (record c { running = true } ∷ cs)
unfolding begin_call
head-begin_call low high c cs h waits =
    simp (same_id c.id, waits, head-is_resolved c.previous low high c cs h.1 h) refl

head-finish_call :
    (c : Call) (cs : List Call) → c.running ≡ true → finish_call c.id (c ∷ cs) ≡ some (c.key, cs)
unfolding finish_call
head-finish_call c cs runs = simp (same_id c.id, runs) refl

finish-CanEnd :
    (locks : Map ℕ) (next : ℕ) (c : Call) (cs : List Call)
    → c.running ≡ true
    → CanEnd (state_of (Map.delete c.key locks) next cs)
    → (es : List Event) × (s' : State) × (run es (state_of locks next (c ∷ cs)) ≡ some s')
      × (s'.calls ≡ [])
      × (length es ≤ suc (2 * length cs))
unfolding run run_from step after_finish
finish-CanEnd locks next c cs runs (es, s', went, over, few) =
    (finish c.id ∷ es, s', rw (head-finish_call c cs runs) went, over, omega (arith, few))

begin-CanEnd :
    (locks : Map ℕ) (next low : ℕ) (c : Call) (cs : List Call)
    → IsRising low next (c ∷ cs)
    → c.running ≡ false
    → CanEnd (state_of (Map.delete c.key locks) next cs)
    → CanEnd (state_of locks next (c ∷ cs))
unfolding run run_from step after_begin
begin-CanEnd locks next low c cs h waits can =
    let (es, s', went, over, few) =
      finish-CanEnd locks next (record c { running = true }) cs refl can in
    (begin c.id ∷ es, s', rw (head-begin_call low next c cs h waits) went, over, omega (arith, few))

rising-CanEnd :
    (locks : Map ℕ) (next low : ℕ) (cs : List Call)
    → IsRising low next cs
    → CanEnd (state_of locks next cs)
unfolding run
rising-CanEnd locks next low [] h = ([], _, refl, refl, omega arith)
rising-CanEnd locks next low (c ∷ cs) h =
    let rest = rising-CanEnd (Map.delete c.key locks) next (suc c.id) cs h.2 in
    elim (Bool-cases c.running) [
      | inl runs ↦
          let (es, s', went, over, few) = finish-CanEnd locks next c cs runs rest in
          (es, s', went, over, omega (arith, few))
      | inr waits ↦ begin-CanEnd locks next low c cs h waits rest
    ]

start-IsGood : IsGood start
unfolding Map.get
start-IsGood = (omega arith, λ k. tt)

-- Whatever calls come and go, from each state that is reached the calls that are not over can all end,
-- with no other call coming: at most two events for each of them, its beginning and its end, are enough.
pub run-CanEnd : (es : List Event) (s : State) → run es start ≡ some s → CanEnd s
run-CanEnd es s e =
    let good = run-IsGood es start start-IsGood in
    rising-CanEnd s.locks s.next 0 s.calls (rw e at good).0
