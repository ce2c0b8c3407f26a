-- ===== src/Orchestrator/Reconcile/Backoff.antt =====
-- The cooldown after a failure in `reconcileExpiredActiveAuctions` of
-- orchestrator/src/orchestrator.js.
use audit_guard.Prelude.{
  ℕ, suc, ◌+◌, ◌≤◌, ◌<◌, ◌≡◌, ◌≢◌, refl, String, true, false, none, some, List, [], ◌∷◌, ◌++◌,
  ◌===◌, arith, ◌∙◌, sym, Bool-cases, inl, inr, ltb, leb, lt→ltb, if◌then◌else◌,
}
use audit_guard.Prelude.Map
use audit_guard.Orchestrator.Closing.{Verdict, closed, open_still, rejected}
use audit_guard.Orchestrator.Reconcile.{
  Limits, World, Pass, Act, select, close, after_close, try_close, on_bids, on_chain, visit,
  is_over, cool, uncool, count_deferred, run_of,
}
use audit_guard.Orchestrator.Reconcile.Cases.{is_skipped, IsDue}

-- The acts on a key.
abbrev pub on_key : String → List Act → ℕ
on_key key [] = 0
on_key key (select k n ∷ acts) = let rest = on_key key acts in if k === key then suc rest else rest
on_key key (close k v ∷ acts) = let rest = on_key key acts in if k === key then suc rest else rest

pub on_key-append :
    (key : String) (xs ys : List Act) → on_key key (xs ++ ys) ≡ on_key key xs + on_key key ys
on_key-append key [] ys = omega arith
on_key-append key (select k n ∷ xs) ys = ground (arith, on_key-append key xs ys)
on_key-append key (close k v ∷ xs) ys = ground (arith, on_key-append key xs ys)

module _ (limits : Limits) (now_ms : ℕ) (world : String → World) where
  -- The ways in which a turn on a key fails.
  pub data Failed (key : String) (p : Pass) : Type 0 where
    unreachable :
        is_skipped limits now_ms world key p ≡ false → (world key).chain_job ≡ none → Failed key p
    uncounted : IsDue limits now_ms world key p → (world key).bids ≡ none → Failed key p
    deferred :
        (n : ℕ)
        → IsDue limits now_ms world key p
        → (world key).bids ≡ some n
        → 0 < n
        → limits.max_selects ≤ p.selects
        → Failed key p
    unclosed :
        (v : Verdict)
        → IsDue limits now_ms world key p
        → (world key).bids ≡ some 0
        → (run_of limits now_ms world key p).verdict ≡ v
        → v ≢ closed
        → Failed key p

  -- No act on the key since `p`, and its cooldown is as it was.
  abbrev pub IsKept : String → Pass → Pass → Type 0
  IsKept key p q =
      (on_key key q.acts ≡ on_key key p.acts)
      × (Map.get key q.state.cooldown ≡ Map.get key p.state.cooldown)

  visit_due :
      (key : String) (p : Pass)
      → IsDue limits now_ms world key p
      → visit limits now_ms world key p ≡ on_bids limits now_ms world key (world key).bids p
  unfolding visit on_chain
  visit_due key p due = simp (due.looked_at, due.on_chain, due.open_there, due.expired) refl

  cool-get :
      (key : String) (until : ℕ) (p : Pass)
      → Map.get key (cool until key p).state.cooldown ≡ some until
  unfolding cool
  cool-get key until p = Map.get-set_self key until p.state.cooldown

  after_close-get :
      (key : String) (v : Verdict) (p : Pass)
      → v ≢ closed
      → Map.get key (after_close limits now_ms world key v p).state.cooldown
        ≡ some (now_ms + limits.cooldown_ms)
  unfolding after_close
  after_close-get key closed p n = absurd (n refl)
  after_close-get key open_still p n = cool-get key _ p
  after_close-get key (rejected e) p n = cool-get key _ p

  visit_unreachable :
      (key : String) (p : Pass)
      → is_skipped limits now_ms world key p ≡ false
      → (world key).chain_job ≡ none
      → visit limits now_ms world key p ≡ cool (now_ms + limits.cooldown_ms) key p
  unfolding visit on_chain
  visit_unreachable key p seen e = simp (seen, e) refl

  abbrev Cools : String → Pass → Type 0
  Cools key p = Map.get key p.state.cooldown ≡ some (now_ms + limits.cooldown_ms)

  bids_uncounted : (key : String) (p : Pass) → Cools key (on_bids limits now_ms world key none p)
  unfolding on_bids
  bids_uncounted key p = cool-get key _ p

  bids_deferred :
      (key : String) (n : ℕ) (p : Pass)
      → 0 < n
      → limits.max_selects ≤ p.selects
      → Cools key (on_bids limits now_ms world key (some n) p)
  unfolding on_bids count_deferred
  bids_deferred key n p pos full =
      let more : ltb 0 n ≡ true = lt→ltb 0 n pos in
      let over : leb limits.max_selects p.selects ≡ true = ground arith in
      simp (more, over) (cool-get key _ p)

  bids_unclosed :
      (key : String) (v : Verdict) (p : Pass)
      → (run_of limits now_ms world key p).verdict ≡ v
      → v ≢ closed
      → Cools key (on_bids limits now_ms world key (some 0) p)
  unfolding on_bids try_close
  bids_unclosed key v p same n = after_close-get key _ _ (λ e. n (sym same ∙ e))

  -- A turn that fails puts the key in its cooldown.
  pub Failed-cools :
      (key : String) (p : Pass)
      → Failed key p
      → Map.get key (visit limits now_ms world key p).state.cooldown
        ≡ some (now_ms + limits.cooldown_ms)
  Failed-cools key p (unreachable seen none_there) =
      rw (visit_unreachable key p seen none_there) (cool-get key _ p)
  Failed-cools key p (uncounted due e) = rw (visit_due key p due, e) (bids_uncounted key p)
  Failed-cools key p (deferred n due e pos full) =
      rw (visit_due key p due, e) (bids_deferred key n p pos full)
  Failed-cools key p (unclosed v due e same n) =
      rw (visit_due key p due, e) (bids_unclosed key v p same n)

  -- A key in its cooldown is passed over.
  pub cooling-visit :
      (key : String) (until : ℕ) (p : Pass)
      → Map.get key p.state.cooldown ≡ some until
      → now_ms < until
      → visit limits now_ms world key p ≡ p
  unfolding visit
  cooling-visit key until p e early =
      let late : ltb now_ms until ≡ true = lt→ltb now_ms until early in
      elim (Bool-cases (is_over (Map.get key p.state.closing.jobs))) [
        | inl over ↦ simp over refl
        | inr live ↦ simp (live, e, late) refl
      ]

  pub other-cool :
      (key j : String) (until : ℕ) (p : Pass) → (j === key) ≡ false → IsKept key p (cool until j p)
  unfolding cool
  other-cool key j until p h = (refl, Map.get-set j key until p.state.cooldown ∙ simp h refl)

  pub other-uncool :
      (key j : String) (p q : Pass)
      → (j === key) ≡ false
      → IsKept key p q
      → IsKept key p (uncool j q)
  unfolding uncool
  other-uncool key j p q h k = (k.0, Map.get-delete j key q.state.cooldown ∙ simp h k.1)
