-- ===== src/Orchestrator/Reconcile/Covered.antt =====
-- That the passes of `reconcileExpiredActiveAuctions` of orchestrator/src/orchestrator.js reach every
-- active job.
use native.Mathlib.Nat.{mod-lt, div-lt_iff_lt-mul}
use audit_guard.Prelude.{
  ℕ, zero, suc, ◌+◌, ◌*◌, ◌/◌, ◌%◌, ◌≤◌, ◌<◌, ◌≡◌, refl, String, true, Option, none, some, List, [],
  ◌∷◌, length, member, arith, ◌∙◌, ap, if_both,
}
use audit_guard.Orchestrator.Closing.{Job, Verdict, closed, open_still, rejected}
use audit_guard.Orchestrator.Reconcile.{
  Limits, World, Pass, State, mark_skipped, after_close, try_close, visit, visit_all, at_index,
  start_index, window, inspect_count, next_cursor, reconcile_ids, begin_pass, cool, uncool, put_job,
  count_select, count_deferred,
}
use audit_guard.Orchestrator.Reconcile.Cases.{
  Visited, skips, cools, marks, defers, starts, shuts, visit-Visited,
}
use audit_guard.Orchestrator.Reconcile.Window.{
  cursor_after, distance, distance-lt, pass_reaches, member-window,
}

module _ (limits : Limits) (now_ms : ℕ) (world : String → World) where
  after_close-cursor :
      (key : String) (v : Verdict) (p : Pass)
      → (after_close limits now_ms world key v p).state.cursor ≡ p.state.cursor
  unfolding after_close cool uncool
  after_close-cursor key closed p = refl
  after_close-cursor key open_still p = refl
  after_close-cursor key (rejected e) p = refl

  mark_skipped-cursor :
      (key : String) (at : ℕ) (o : Option Job) (p : Pass)
      → (mark_skipped key at o p).state.cursor ≡ p.state.cursor
  unfolding mark_skipped put_job
  mark_skipped-cursor key at none p = refl
  mark_skipped-cursor key at (some job) p = refl

  Visited-cursor :
      (key : String) (p q : Pass)
      → Visited limits now_ms world key p q
      → q.state.cursor ≡ p.state.cursor
  unfolding cool uncool count_select count_deferred try_close
  Visited-cursor key p _ skips = refl
  Visited-cursor key p _ cools = refl
  Visited-cursor key p _ (marks o) = mark_skipped-cursor key (world key).at o p
  Visited-cursor key p _ (defers full) = refl
  Visited-cursor key p _ (starts n due e pos free) = refl
  Visited-cursor key p _ (shuts due e) = after_close-cursor key _ _

  visit_all-cursor :
      (keys : List String) (p : Pass)
      → (visit_all limits now_ms world keys p).state.cursor ≡ p.state.cursor
  unfolding visit_all
  visit_all-cursor [] p = refl
  visit_all-cursor (key ∷ keys) p =
      let q = visit limits now_ms world key p in
      if_both (λ (r : Pass). r.state.cursor ≡ p.state.cursor) _ refl
        (visit_all-cursor keys q ∙ Visited-cursor key p q (visit-Visited limits now_ms world key p))

-- The state after so many passes over the same active jobs, the pass `k` at `clock k` in `worlds k`.
abbrev pub passes : Limits → (ℕ → ℕ) → (ℕ → String → World) → List String → ℕ → State → State
passes limits clock worlds ids zero s = s
passes limits clock worlds ids (suc k) s =
    (reconcile_ids limits (clock k) (worlds k) (passes limits clock worlds ids k s) ids).state

module _ (limits : Limits) (clock : ℕ → ℕ) (worlds : ℕ → String → World) where
  pass-cursor :
      (now_ms : ℕ) (world : String → World) (id : String) (ids : List String) (s : State)
      → (reconcile_ids limits now_ms world s (id ∷ ids)).state.cursor
        ≡ next_cursor limits s.cursor (length (id ∷ ids))
  unfolding reconcile_ids begin_pass
  pass-cursor now_ms world id ids s = visit_all-cursor limits now_ms world _ _

  passes-cursor :
      (id : String) (ids : List String) (k : ℕ) (s : State)
      → (passes limits clock worlds (id ∷ ids) k s).cursor
        ≡ cursor_after limits (length (id ∷ ids)) s.cursor k
  passes-cursor id ids zero s = refl
  passes-cursor id ids (suc k) s =
      pass-cursor (clock k) (worlds k) id ids (passes limits clock worlds (id ∷ ids) k s)
      ∙ ap (λ c. next_cursor limits c (length (id ∷ ids))) (passes-cursor id ids k s)

  inspects : (n : ℕ) → 0 < n → 0 < inspect_count limits n
  unfolding inspect_count
  inspects n h = omega arith

  -- Over an unchanging list of `n` active jobs, whatever a pass meets, each job is in the window of
  -- one of the next `k` passes as soon as `k` windows are as long as the list.
  pub passes-cover :
      (id : String) (ids : List String) (key : String) (j k : ℕ) (s : State)
      → j < length (id ∷ ids)
      → at_index (id ∷ ids) j ≡ key ∷ []
      → length (id ∷ ids) ≤ k * inspect_count limits (length (id ∷ ids))
      → (i : ℕ) × (i < k)
        × (member key (
              window
                (id ∷ ids)
                (start_index (passes limits clock worlds (id ∷ ids) i s).cursor (length (id ∷ ids)))
                (inspect_count limits (length (id ∷ ids)))
                0)
            ≡ true)
  passes-cover id ids key j k s h there enough =
      let n = length (id ∷ ids) in
      let m = inspect_count limits n in
      let d = distance s.cursor n j in
      let pos : 0 < m = inspects n (omega (arith, h)) in
      (
        d / m,
        (div-lt_iff_lt-mul pos).1
            (omega (arith, enough, distance-lt s.cursor n j (omega (arith, h)))),
        rw (passes-cursor id ids (d / m) s) (
            member-window (id ∷ ids) key _ m 0 (d % m) (mod-lt d pos) (
              ap (at_index (id ∷ ids)) (
                ap (λ x. (start_index (cursor_after limits n s.cursor (d / m)) n + x) % n)
                  (omega arith)
                ∙ pass_reaches limits s.cursor n j h pos)
              ∙ there)),
      )
