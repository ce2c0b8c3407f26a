-- ===== src/Agents/JobLock/Chain.antt =====
-- The calls of one key that are not over, for the lock of agents/shared/job-lock.ts: each awaits the one
-- before it.
use audit_guard.Prelude.{
  ℕ, suc, ◌≤◌, ◌≡◌, refl, sym, String, Bool, true, false, Option, none, some, List, [], ◌∷◌, ◌++◌,
  ◌==◌, ◌&&◌, not, inl, inr, arith, if◌then◌else◌, any, ◌===◌, Bool-cases, ◌∙◌, All,
}
use mathlib.Core.Bool.{false≢true}
use mathlib.Core.Option.{some-injective}
use audit_guard.Agents.JobLock.{
  Call, is_pending, is_resolved, keep_call, begin_call, keep_finished, finish_call,
}

-- How many calls of the key are in their `fn`.
abbrev pub count_running : String → List Call → ℕ
count_running k [] = 0
count_running k (c ∷ cs) =
    let rest = count_running k cs in if c.key === k && c.running then suc rest else rest

-- Whether a call of the key is not over.
abbrev pub is_busy : String → List Call → Bool
is_busy k calls = any (λ c. c.key === k) calls

module _ (k : String) where
  abbrev pub next_id : Call → Option ℕ → Option ℕ
  next_id c o = if c.key === k then some c.id else o

  abbrev pub last_id : Option ℕ → List Call → Option ℕ
  last_id o [] = o
  last_id o (c ∷ cs) = last_id (next_id c o) cs

  -- A call behind another one of its key awaits that one.
  abbrev pub Follows : Option ℕ → Call → Type 0
  Follows none c = Unit
  Follows (some p) c = (c.previous ≡ some p) × (c.running ≡ false)

  abbrev pub IsChain : Option ℕ → List Call → Type 0
  IsChain o [] = Unit
  IsChain o (c ∷ cs) = ((c.key === k) ≡ true → Follows o c) × IsChain (next_id c o) cs

  count-none : (p : ℕ) (cs : List Call) → IsChain (some p) cs → count_running k cs ≡ 0
  count-none p [] h = refl
  count-none p (c ∷ cs) h = elim (Bool-cases (c.key === k)) [
    | inl same ↦ simp (same, (h.0 same).1) (count-none c.id cs (simp same at h.1))
    | inr other ↦ simp other (count-none p cs (simp other at h.1))
  ]

  pub count-one : (cs : List Call) → IsChain none cs → count_running k cs ≤ 1
  count-one [] h = omega arith
  count-one (c ∷ cs) h = elim (Bool-cases (c.key === k)) [
    | inl same ↦
        let rest = count-none c.id cs (simp same at h.1) in simp same (ground (arith, rest))
    | inr other ↦ simp other (count-one cs (simp other at h.1))
  ]

  pub snoc-IsChain :
      (o : Option ℕ) (cs : List Call) (c : Call)
      → IsChain o cs
      → ((c.key === k) ≡ true → Follows (last_id o cs) c)
      → IsChain o (cs ++ c ∷ [])
  snoc-IsChain o [] c h f = (f, tt)
  snoc-IsChain o (b ∷ cs) c h f = (h.0, snoc-IsChain (next_id b o) cs c h.1 f)

  pub last_id-snoc :
      (o : Option ℕ) (cs : List Call) (c : Call)
      → last_id o (cs ++ c ∷ []) ≡ next_id c (last_id o cs)
  last_id-snoc o [] c = refl
  last_id-snoc o (b ∷ cs) c = last_id-snoc (next_id b o) cs c

  pub last_id-idle : (o : Option ℕ) (cs : List Call) → is_busy k cs ≡ false → last_id o cs ≡ o
  last_id-idle o [] e = refl
  last_id-idle o (c ∷ cs) e = elim (Bool-cases (c.key === k)) [
    | inl same ↦ absurd (ground (arith, same, e))
    | inr other ↦ simp other (last_id-idle o cs (simp other at e))
  ]

  head-IsChain : (o : Option ℕ) (cs : List Call) → IsChain o cs → IsChain none cs
  head-IsChain o [] h = tt
  head-IsChain o (c ∷ cs) h = elim (Bool-cases (c.key === k)) [
    | inl same ↦ (λ e. tt, simp same (simp same at h.1))
    | inr other ↦ (λ e. tt, simp other (head-IsChain o cs (simp other at h.1)))
  ]

  -- A chain that stays one, with the same end unless its key is `key`.
  abbrev pub Stays : Option ℕ → List Call → List Call → Type 0
  Stays o cs cs' = IsChain o cs' × (last_id o cs' ≡ last_id o cs)

  keep-Stays :
      (o : Option ℕ) (c : Call) (r : Option (List Call)) (cs cs' : List Call)
      → ((c.key === k) ≡ true → Follows o c)
      → ((ds : List Call) → r ≡ some ds → Stays (next_id c o) cs ds)
      → keep_call c r ≡ some cs'
      → Stays o (c ∷ cs) cs'
  unfolding keep_call
  keep-Stays o c none cs cs' f ih e = cc
  keep-Stays o c (some ds) cs cs' f ih e =
      let stays = ih ds refl in rw (sym (some-injective (c ∷ ds) cs' e)) ((f, stays.0), stays.1)

  -- A promise that is not resolved keeps a call from its `fn`.
  IsResolved-IsPending :
      (q : Option ℕ) (p : ℕ) (calls : List Call)
      → q ≡ some p
      → is_pending p calls ≡ true
      → is_resolved q calls ≡ false
  unfolding is_resolved
  IsResolved-IsPending q p calls e pending = rw e (simp pending refl)

  begun-Follows :
      (o : Option ℕ) (c : Call) (calls : List Call)
      → ((p : ℕ) → o ≡ some p → is_pending p calls ≡ true)
      → Follows o c
      → (not c.running && is_resolved c.previous calls) ≡ true
      → Follows o (record c { running = true })
  begun-Follows none c calls pending f can = tt
  begun-Follows (some p) c calls pending f can =
      let waits = IsResolved-IsPending c.previous p calls f.0 (pending p refl) in
      absurd (ground (arith, waits, can))

  pub begin-Stays :
      (id : ℕ) (calls : List Call) (o : Option ℕ) (cs cs' : List Call)
      → ((p : ℕ) → o ≡ some p → is_pending p calls ≡ true)
      → All (λ c. is_pending c.id calls ≡ true) cs
      → IsChain o cs
      → begin_call id calls cs ≡ some cs'
      → Stays o cs cs'
  unfolding begin_call
  begin-Stays id calls o [] cs' pending all h e = cc
  begin-Stays id calls o (c ∷ cs) cs' pending all h e = elim (Bool-cases (c.id == id)) [
    | inl it ↦ elim (Bool-cases (not c.running && is_resolved c.previous calls)) [
      | inl can ↦
          rw (sym (some-injective (record c { running = true } ∷ cs) cs' (simp (it, can) at e)))
            ((λ same. begun-Follows o c calls pending (h.0 same) can, h.1), refl)
      | inr cannot ↦ cc (simp (it, cannot) at e)
    ]
    | inr other ↦
        keep-Stays o c (begin_call id calls cs) cs cs' h.0
          (λ ds e'.
            begin-Stays id calls (next_id c o) cs ds (later (c.key === k) o pending) all.1 h.1 e')
          (simp other at e)
  ]
    where
      later :
          (b : Bool) (o : Option ℕ)
          → ((p : ℕ) → o ≡ some p → is_pending p calls ≡ true)
          → (p : ℕ) → (if b then some c.id else o) ≡ some p
          → is_pending p calls ≡ true
      later true o pending p e = rw (sym (some-injective c.id p e)) all.0
      later false o pending p e = pending p e

  -- What is left when a call is over, if it can be.
  abbrev pub Ends : Option ℕ → List Call → Option (String × List Call) → Type 0
  Ends o cs none = Unit
  Ends o cs (some (key, cs')) = IsChain o cs' × ((key === k) ≡ false → last_id o cs' ≡ last_id o cs)

  head-Ends :
      (o : Option ℕ) (c : Call) (cs : List Call)
      → IsChain o (c ∷ cs)
      → c.running ≡ true
      → Ends o (c ∷ cs) (some (c.key, cs))
  head-Ends o c cs h runs = elim (Bool-cases (c.key === k)) [
    | inl same ↦ (headed o (h.0 same) (simp same at h.1), λ other. cc)
    | inr other ↦ (simp other at h.1, λ e. simp other refl)
  ]
    where
      headed : (o : Option ℕ) → Follows o c → IsChain (some c.id) cs → IsChain o cs
      headed none f rest = head-IsChain (some c.id) cs rest
      headed (some p) f rest = absurd (false≢true (sym f.1 ∙ runs))

  keep-Ends :
      (o : Option ℕ) (c : Call) (cs : List Call) (r : Option (String × List Call))
      → ((c.key === k) ≡ true → Follows o c)
      → Ends (next_id c o) cs r
      → Ends o (c ∷ cs) (keep_finished c r)
  unfolding keep_finished
  keep-Ends o c cs none f h = tt
  keep-Ends o c cs (some (key, cs')) f h = ((f, h.0), h.1)

  pub finish-Ends :
      (id : ℕ) (o : Option ℕ) (cs : List Call) → IsChain o cs → Ends o cs (finish_call id cs)
  unfolding finish_call
  finish-Ends id o [] h = tt
  finish-Ends id o (c ∷ cs) h = elim (Bool-cases (c.id == id)) [
    | inl it ↦ elim (Bool-cases c.running) [
      | inl runs ↦ simp (it, runs) (head-Ends o c cs h runs)
      | inr waits ↦ simp (it, waits) tt
    ]
    | inr other ↦
        simp other (keep-Ends o c cs (finish_call id cs) h.0 (finish-Ends id (next_id c o) cs h.1))
  ]
