-- ===== src/Orchestrator/Reconcile/Acts.antt =====
-- What a pass of `reconcileExpiredActiveAuctions` of orchestrator/src/orchestrator.js does, and how
-- much of it.
use audit_guard.Prelude.{
  ℕ, suc, ◌+◌, ◌≤◌, ◌<◌, ◌≡◌, refl, String, true, Option, none, some, List, [], ◌∷◌, ◌++◌, length,
  arith, All, All-snoc, Bool-cases, inl, inr,
}
use audit_guard.Orchestrator.Closing.{Job, Verdict, closed, open_still, rejected}
use audit_guard.Orchestrator.Reconcile.{
  Limits, World, Pass, State, Act, select, close, ChainJob, is_open, is_expired, mark_skipped,
  after_close, try_close, visit, visit_all, is_spent, reconcile_ids, begin_pass, cool, uncool,
  put_job, count_select, count_deferred, count_close, next_cursor, with_closing, run_of, active_ids,
  reconcile,
}
use audit_guard.Orchestrator.Reconcile.Cases.{
  Visited, IsDue, skips, cools, marks, defers, starts, shuts, visit-Visited,
}

-- The winner selections among the acts.
abbrev pub selections : List Act → ℕ
selections [] = 0
selections (select key n ∷ acts) = suc (selections acts)
selections (close key v ∷ acts) = selections acts

selections-append : (xs ys : List Act) → selections (xs ++ ys) ≡ selections xs + selections ys
selections-append [] ys = omega arith
selections-append (select key n ∷ xs) ys = omega (arith, selections-append xs ys)
selections-append (close key v ∷ xs) ys = selections-append xs ys

module _ (limits : Limits) (now_ms : ℕ) (world : String → World) where
  -- On the chain the key is open and past its deadline, and has so many bids.
  abbrev pub IsExpired : String → ℕ → Type 0
  IsExpired key n =
      ((chain : ChainJob) × ((world key).chain_job ≡ some chain)
        × (is_open chain ≡ true)
        × (is_expired now_ms chain ≡ true))
      × ((world key).bids ≡ some n)

  -- Selection is for jobs with bids, closing for those with none.
  abbrev pub IsRight : Act → Type 0
  IsRight (select key n) = IsExpired key n × (0 < n)
  IsRight (close key v) = IsExpired key 0

  abbrev pub IsSound : Pass → Type 0
  IsSound p =
      All IsRight p.acts × (selections p.acts ≡ p.selects) × (p.selects ≤ limits.max_selects)

  due-IsExpired :
      (key : String) (n : ℕ) (p : Pass)
      → IsDue limits now_ms world key p
      → (world key).bids ≡ some n
      → IsExpired key n
  due-IsExpired key n p due e = ((due.chain, due.on_chain, due.open_there, due.expired), e)

  after_close-IsSound :
      (key : String) (v : Verdict) (p : Pass)
      → IsSound p
      → IsSound (after_close limits now_ms world key v p)
  unfolding after_close cool uncool
  after_close-IsSound key closed p h = h
  after_close-IsSound key open_still p h = h
  after_close-IsSound key (rejected e) p h = h

  try_close-IsSound :
      (key : String) (p : Pass)
      → IsSound p
      → IsExpired key 0
      → IsSound (try_close limits now_ms world key p)
  unfolding try_close count_close with_closing
  try_close-IsSound key p h fits =
      let r = run_of limits now_ms world key p in
      after_close-IsSound key r.verdict _ (
        All-snoc IsRight (close key r.verdict) p.acts h.0 fits,
        omega (arith, selections-append p.acts (close key r.verdict ∷ []), h.1),
        h.2,
      )

  mark_skipped-IsSound :
      (key : String) (at : ℕ) (o : Option Job) (p : Pass)
      → IsSound p
      → IsSound (mark_skipped key at o p)
  unfolding mark_skipped put_job
  mark_skipped-IsSound key at none p h = h
  mark_skipped-IsSound key at (some job) p h = h

  Visited-IsSound :
      (key : String) (p q : Pass) → Visited limits now_ms world key p q → IsSound p → IsSound q
  unfolding cool uncool count_select count_deferred
  Visited-IsSound key p _ skips h = h
  Visited-IsSound key p _ cools h = h
  Visited-IsSound key p _ (marks o) h = mark_skipped-IsSound key (world key).at o p h
  Visited-IsSound key p _ (defers full) h = h
  Visited-IsSound key p _ (starts n due e pos free) h = (
    All-snoc IsRight (select key n) p.acts h.0 (due-IsExpired key n p due e, pos),
    omega (arith, selections-append p.acts (select key n ∷ []), h.1),
    omega (arith, free),
  )
  Visited-IsSound key p _ (shuts due e) h = try_close-IsSound key p h (due-IsExpired key 0 p due e)

  visit_all-IsSound :
      (keys : List String) (p : Pass) → IsSound p → IsSound (visit_all limits now_ms world keys p)
  unfolding visit_all
  visit_all-IsSound [] p h = h
  visit_all-IsSound (key ∷ keys) p h =
      let q = visit limits now_ms world key p in
      let rest =
        visit_all-IsSound keys q
          (Visited-IsSound key p q (visit-Visited limits now_ms world key p) h) in
      elim (Bool-cases (is_spent limits now_ms world p)) [
        | inl spent ↦ simp spent h
        | inr more ↦ simp more rest
      ]

  begin_pass-IsSound : (s : State) → IsSound (begin_pass s)
  unfolding begin_pass
  begin_pass-IsSound s = (tt, refl, omega arith)

  ids-IsSound : (ids : List String) (s : State) → IsSound (reconcile_ids limits now_ms world s ids)
  unfolding reconcile_ids
  ids-IsSound [] s = begin_pass-IsSound s
  ids-IsSound (id ∷ ids) s =
      visit_all-IsSound _ _
        (begin_pass-IsSound (record s { cursor = next_cursor limits s.cursor (length (id ∷ ids)) }))

  -- A pass starts no more winner selections than its limit; it starts one just for jobs that are open
  -- on the chain, past their deadline, and have bids, and it closes just such jobs without a bid.
  pub reconcile-IsSound :
      (answer : Option (List String)) (s : State) → IsSound (reconcile limits now_ms world answer s)
  unfolding reconcile
  reconcile-IsSound answer s = elim (Bool-cases s.is_running) [
    | inl busy ↦ simp busy (begin_pass-IsSound s)
    | inr idle ↦ simp idle (ids-IsSound (active_ids answer s) s)
  ]
