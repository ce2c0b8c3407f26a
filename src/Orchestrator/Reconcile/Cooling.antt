-- ===== src/Orchestrator/Reconcile/Cooling.antt =====
-- That a job in its cooldown is left alone by the passes of `reconcileExpiredActiveAuctions` of
-- orchestrator/src/orchestrator.js.
use audit_guard.Prelude.{
  ℕ, ◌+◌, ◌<◌, ◌≡◌, refl, String, false, Option, none, some, List, [], ◌∷◌, ◌===◌, eq_iff, arith,
  ◌∙◌, Bool-cases, inl, inr,
}
use audit_guard.Prelude.Map
use audit_guard.Orchestrator.Closing.{Job, Verdict, closed, open_still, rejected}
use audit_guard.Orchestrator.Reconcile.{
  Limits, World, Pass, select, close, mark_skipped, after_close, try_close, visit, visit_all,
  is_spent, put_job, count_select, count_deferred, count_close, with_closing, run_of,
}
use audit_guard.Orchestrator.Reconcile.Cases.{
  Visited, skips, cools, marks, defers, starts, shuts, visit-Visited,
}
use audit_guard.Orchestrator.Reconcile.Backoff.{
  on_key, on_key-append, IsKept, Failed, Failed-cools, cooling-visit, other-cool, other-uncool,
}

module _ (limits : Limits) (now_ms : ℕ) (world : String → World) (key : String) where
  -- `q` has the acts on the key and the cooldown of the key of `p`.
  abbrev Keeps : Pass → Pass → Type 0
  Keeps = IsKept limits now_ms world key

  other-after_close :
      (j : String) (v : Verdict) (p q : Pass)
      → (j === key) ≡ false
      → Keeps p q
      → Keeps p (after_close limits now_ms world j v q)
  unfolding after_close
  other-after_close j closed p q h k = other-uncool limits now_ms world key j p q h k
  other-after_close j open_still p q h k =
      let c = other-cool limits now_ms world key j (now_ms + limits.cooldown_ms) q h in
      (c.0 ∙ k.0, c.1 ∙ k.1)
  other-after_close j (rejected e) p q h k =
      let c = other-cool limits now_ms world key j (now_ms + limits.cooldown_ms) q h in
      (c.0 ∙ k.0, c.1 ∙ k.1)

  other-mark_skipped :
      (j : String) (at : ℕ) (o : Option Job) (p : Pass) → Keeps p (mark_skipped j at o p)
  unfolding mark_skipped put_job
  other-mark_skipped j at none p = (refl, refl)
  other-mark_skipped j at (some job) p = (refl, refl)

  other-try_close :
      (j : String) (p : Pass) → (j === key) ≡ false → Keeps p (try_close limits now_ms world j p)
  unfolding try_close count_close with_closing
  other-try_close j p h = other-after_close j (run_of limits now_ms world j p).verdict p _ h (
    ground
        (arith, on_key-append key p.acts (close j (run_of limits now_ms world j p).verdict ∷ [])),
    refl,
  )

  -- A turn on another key.
  other-Visited :
      (j : String) (p q : Pass)
      → (j === key) ≡ false
      → Visited limits now_ms world j p q
      → Keeps p q
  unfolding count_select count_deferred
  other-Visited j p _ h skips = (refl, refl)
  other-Visited j p _ h cools = other-cool limits now_ms world key j _ p h
  other-Visited j p _ h (marks o) = other-mark_skipped j _ o p
  other-Visited j p _ h (defers full) = other-cool limits now_ms world key j _ p h
  other-Visited j p _ h (starts n due e pos free) =
      other-uncool limits now_ms world key j p (count_select limits now_ms world j n p) h
        (ground (arith, on_key-append key p.acts (select j n ∷ [])), refl)
  other-Visited j p _ h (shuts due e) = other-try_close j p h

  kept-visit :
      (j : String) (until : ℕ) (p : Pass)
      → Map.get key p.state.cooldown ≡ some until
      → now_ms < until
      → Keeps p (visit limits now_ms world j p)
  kept-visit j until p e early = elim (Bool-cases (j === key)) [
    | inl same ↦
        rw ((eq_iff j key).0 same, cooling-visit limits now_ms world key until p e early)
          (refl, refl)
    | inr other ↦ other-Visited j p _ other (visit-Visited limits now_ms world j p)
  ]

  kept-visit_all :
      (keys : List String) (until : ℕ) (p : Pass)
      → Map.get key p.state.cooldown ≡ some until
      → now_ms < until
      → Keeps p (visit_all limits now_ms world keys p)
  unfolding visit_all
  kept-visit_all [] until p e early = (refl, refl)
  kept-visit_all (j ∷ keys) until p e early =
      let q = visit limits now_ms world j p in
      let first = kept-visit j until p e early in
      let rest = kept-visit_all keys until q (first.1 ∙ e) early in
      elim (Bool-cases (is_spent limits now_ms world p)) [
        | inl spent ↦ simp spent (refl, refl)
        | inr more ↦ simp more (rest.0 ∙ first.0, rest.1 ∙ first.1)
      ]

-- After a turn that failed on a key at `now_ms` (the chain did not answer, the selection was put off,
-- or closing did not end in true), the loop of a pass, over whatever keys and whatever it meets, does
-- no further act on the key and leaves its cooldown, as long as the cooldown lasts.
pub Failed-visit_all :
    (limits : Limits) (now_ms later_ms : ℕ) (world later : String → World) (key : String)
    (keys : List String) (p : Pass)
    → Failed limits now_ms world key p
    → later_ms < now_ms + limits.cooldown_ms
    → (on_key key (visit_all limits later_ms later keys (visit limits now_ms world key p)).acts
        ≡ on_key key (visit limits now_ms world key p).acts)
      × (Map.get key
            (visit_all limits later_ms later keys (visit limits now_ms world key p)).state.cooldown
          ≡ some (now_ms + limits.cooldown_ms))
Failed-visit_all limits now_ms later_ms world later key keys p failed early =
    let cooled = Failed-cools limits now_ms world key p failed in
    let kept =
      kept-visit_all limits later_ms later key keys (now_ms + limits.cooldown_ms)
        (visit limits now_ms world key p) cooled early in
    (kept.0, kept.1 ∙ cooled)
