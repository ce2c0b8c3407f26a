-- ===== src/Agents/JobLock/Exclusive.antt =====
-- When the lock of agents/shared/job-lock.ts keeps two calls of one key apart.
use audit_guard.Prelude.{
  ℕ, ◌≤◌, ◌≡◌, refl, sym, String, true, false, Option, none, some, List, [], ◌∷◌, ◌++◌, ◌⊎◌, inl,
  inr, arith, ◌===◌, eq_iff, Bool-cases, ◌∙◌, All,
}
use mathlib.Core.Path.{subst}
use audit_guard.Prelude.Map
use audit_guard.Agents.JobLock.{
  Call, State, Event, enter, begin, finish, start, enter_lock, is_pending, begin_call, finish_call,
  after_begin, after_finish, step, run_from, run,
}
use audit_guard.Agents.JobLock.Chain.{
  count_running, is_busy, last_id, Follows, IsChain, Ends, Stays, count-one, snoc-IsChain,
  last_id-snoc, last_id-idle, begin-Stays, finish-Ends,
}

-- A call finds its key in the map if another call of the key is not over.
abbrev pub IsTidy : Event → State → Type 0
IsTidy (enter key) s = Map.get key s.locks ≡ none → is_busy key s.calls ≡ false
IsTidy _ s = Unit

-- It holds of the state after the event, if there is one.
abbrev pub IfSome : (State → Type 0) → Option State → Type 0
IfSome P none = Unit
IfSome P (some s) = P s

abbrev pub AreTidy : List Event → State → Type 0
AreTidy [] s = Unit
AreTidy (e ∷ es) s = IsTidy e s × IfSome (AreTidy es) (step e s)

module _ (k : String) where
  -- The map has no entry for the key, or it has the last of the key's calls that are not over.
  abbrev IsGood : State → Type 0
  IsGood s =
      IsChain k none s.calls
      × ((Map.get k s.locks ≡ none) ⊎ (Map.get k s.locks ≡ last_id k none s.calls))

  abbrev IsGoodIf : Option State → Type 0
  IsGoodIf none = Unit
  IsGoodIf (some s) = IsGood s

  entered-Follows :
      (last held : Option ℕ) (c : Call)
      → c.previous ≡ held
      → c.running ≡ false
      → (held ≡ none → last ≡ none)
      → (held ≡ none) ⊎ (held ≡ last)
      → Follows k last c
  entered-Follows none held c e f tidy at_end = tt
  entered-Follows (some p) held c e f tidy (inl free) = cc (tidy free)
  entered-Follows (some p) held c e f tidy (inr same) = (e ∙ same, f)

  enter-IsGood :
      (key : String) (s : State) → IsTidy (enter key) s → IsGood s → IsGood (enter_lock key s)
  unfolding enter_lock
  enter-IsGood key s tidy h =
      let call : Call = record {
        id = s.next;
        key = key;
        previous = Map.get key s.locks;
        running = false;
      } in
      (snoc-IsChain k none s.calls call h.0 (λ same. follows same), lock)
    where
      tidy_end : (key === k) ≡ true → Map.get key s.locks ≡ none → last_id k none s.calls ≡ none
      tidy_end same free =
          last_id-idle k none s.calls
            (subst (λ j. is_busy j s.calls ≡ false) ((eq_iff key k).0 same) (tidy free))

      at_end :
          (key === k) ≡ true
          → (Map.get key s.locks ≡ none) ⊎ (Map.get key s.locks ≡ last_id k none s.calls)
      at_end same =
          subst (λ j. (Map.get j s.locks ≡ none) ⊎ (Map.get j s.locks ≡ last_id k none s.calls))
            (sym ((eq_iff key k).0 same)) h.1

      follows :
          (key === k) ≡ true
          → Follows k
              (last_id k none s.calls)
              (record { id = s.next; key = key; previous = Map.get key s.locks; running = false })
      follows same =
          entered-Follows (last_id k none s.calls) (Map.get key s.locks) _ refl refl (tidy_end same)
            (at_end same)

      lock :
          (Map.get k (Map.set key s.next s.locks) ≡ none)
          ⊎ (Map.get k (Map.set key s.next s.locks)
              ≡ last_id k none (
                  s.calls
                  ++ record {
                    id = s.next;
                    key = key;
                    previous = Map.get key s.locks;
                    running = false;
                  }
                    ∷ []))
      lock = elim (Bool-cases (key === k)) [
        | inl same ↦ inr (simp (Map.get-set, last_id-snoc, same) refl)
        | inr other ↦ simp (Map.get-set, last_id-snoc, other) h.1
      ]

  pending-All :
      (calls cs : List Call)
      → ((n : ℕ) → is_pending n cs ≡ true → is_pending n calls ≡ true)
      → All (λ c. is_pending c.id calls ≡ true) cs
  unfolding is_pending
  pending-All calls [] sub = tt
  pending-All calls (c ∷ cs) sub =
      (sub c.id (ground arith), pending-All calls cs (λ n e. sub n (ground (arith, e))))

  begin-IsGood :
      (s : State) (o : Option (List Call))
      → ((cs : List Call) → o ≡ some cs → Stays k none s.calls cs)
      → IsGood s
      → IsGoodIf (after_begin s o)
  unfolding after_begin
  begin-IsGood s none stays h = tt
  begin-IsGood s (some cs) stays h = let stay = stays cs refl in (stay.0, rw stay.1 h.1)

  finish-IsGood :
      (s : State) (o : Option (String × List Call))
      → Ends k none s.calls o
      → IsGood s
      → IsGoodIf (after_finish s o)
  unfolding after_finish
  finish-IsGood s none ends h = tt
  finish-IsGood s (some (key, cs)) ends h = (
    ends.0,
    elim (Bool-cases (key === k)) [
      | inl same ↦ inl (simp (Map.get-delete, same))
      | inr other ↦ simp (Map.get-delete, other, ends.1 other) h.1
    ],
  )

  start_free : Map.get k start.locks ≡ none
  unfolding Map.get
  start_free = refl

  step-IsGood : (e : Event) (s : State) → IsTidy e s → IsGood s → IsGoodIf (step e s)
  unfolding step
  step-IsGood (enter key) s tidy h = enter-IsGood key s tidy h
  step-IsGood (begin id) s tidy h =
      begin-IsGood s (begin_call id s.calls s.calls)
        (λ cs e.
          begin-Stays k id s.calls none s.calls cs (λ p. cc)
            (pending-All s.calls s.calls (λ n e. e)) h.0 e)
        h
  step-IsGood (finish id) s tidy h =
      finish-IsGood s (finish_call id s.calls) (finish-Ends k id none s.calls h.0) h

  run-IsGood : (es : List Event) (s : State) → AreTidy es s → IsGood s → IsGoodIf (run es s)
  unfolding run run_from
  run-IsGood [] s tidy h = h
  run-IsGood (e ∷ es) s tidy h =
      from (step e s) (λ s'. run-IsGood es s') tidy.1 (step-IsGood e s tidy.0 h)
    where
      from :
          (o : Option State)
          → ((s' : State) → AreTidy es s' → IsGood s' → IsGoodIf (run es s'))
          → IfSome (AreTidy es) o
          → IsGoodIf o
          → IsGoodIf (run_from (run es) o)
      from none ih tidy good = tt
      from (some s') ih tidy good = ih s' tidy good

  -- Where each call finds its key in the map if another call of the key is not over, at most one call of
  -- a key is in its `fn` at a time.
  pub run-IsExclusive :
      (es : List Event) (s : State)
      → AreTidy es start
      → run es start ≡ some s
      → count_running k s.calls ≤ 1
  run-IsExclusive es s tidy e =
      let good = run-IsGood es start tidy (tt, inl start_free) in
      count-one k s.calls (rw e at good).0
