-- ===== src/Orchestrator/Lanes/Refines.antt =====
-- The write queue of orchestrator/src/contract-client.js as two lines.
use audit_guard.Prelude.{
  ◌≡◌, refl, Bool, true, false, Option, none, some, List, [], ◌∷◌, ◌++◌, ◌&&◌, ltb, leb, arith,
  Bool-cases, inl, inr, if◌then◌else◌, ◌∙◌, ap,
}
use mathlib.Core.List.{append-nil}
use audit_guard.Orchestrator.WriteQueue.{
  Priority, high, normal, Task, is_high, WriteQueue, enqueue, take_normal, or_shift, shift, choose,
  dequeue, served, turn,
}
use audit_guard.Orchestrator.SendOrder.{
  only, IsOrdered, IsPartitioned, only-enqueue, take_normal_lem, no_normal, to_list,
}
use audit_guard.Orchestrator.Lanes.{
  Op, put, send, lane_put, first_high, first_normal, lane_after, lane_send, lanes_of, run, lane_run,
}
use audit_guard.Orchestrator.Lanes.Partition.{enqueue-IsPartitioned, turn-IsPartitioned}

module _ {A : Type 0} where
  -- What is taken from the queue, with what is left as two lanes.
  split : Option (Task A × List (Task A)) → Option (Task A × List (Task A) × List (Task A))
  split none = none
  split (some (t, rest)) = some (t, only high rest, only normal rest)

  shift-lanes :
      (ts : List (Task A))
      → IsPartitioned ts
      → split (shift ts) ≡ first_high (only high ts) (only normal ts)
  unfolding split shift first_high
  shift-lanes [] o = refl
  shift-lanes (t ∷ ts) o = by_priority t.priority refl
    where
      by_priority :
          (p : Priority)
          → t.priority ≡ p
          → split (shift (t ∷ ts)) ≡ first_high (only high (t ∷ ts)) (only normal (t ∷ ts))
      by_priority high e = simp e refl
      by_priority normal e =
          let no_high : only high ts ≡ [] = o.0 (simp e refl) in simp (e, no_high) refl

  take-lanes :
      (ts : List (Task A)) (o : Option (Task A × List (Task A)))
      → IsPartitioned ts
      → take_normal ts ≡ o
      → split (or_shift o ts) ≡ first_normal (only high ts) (only normal ts)
  unfolding split or_shift first_normal
  take-lanes ts none part e =
      let no_more : only normal ts ≡ [] = no_normal ts e in
      simp no_more (shift-lanes ts part ∙ ap (first_high (only high ts)) no_more)
  take-lanes ts (some (n, rest)) part e =
      let (is_normal, highs) = take_normal_lem high ts n rest e in
      let (_, normals) = take_normal_lem normal ts n rest e in
      rw (highs, normals) (simp is_normal refl)

  dequeue-lanes :
      (q : WriteQueue A)
      → q.fast ≡ true
      → IsPartitioned q.tasks
      → split (dequeue q) ≡ (
          if ltb 0 q.max_high_streak && leb q.max_high_streak q.streak
          then first_normal (only high q.tasks) (only normal q.tasks)
          else first_high (only high q.tasks) (only normal q.tasks))
  unfolding dequeue choose
  dequeue-lanes q f part =
      elim (Bool-cases (ltb 0 q.max_high_streak && leb q.max_high_streak q.streak)) [
        | inl full ↦ simp (f, full) (take-lanes q.tasks (take_normal q.tasks) part refl)
        | inr free ↦ simp (f, free) (shift-lanes q.tasks part)
      ]

  lanes_of-served :
      (sent : Bool) (q : WriteQueue A) (o : Option (Task A × List (Task A)))
      → (lanes_of (served sent q o).0, (served sent q o).1) ≡ lane_after sent (lanes_of q) (split o)
  unfolding served lane_after split
  lanes_of-served sent q none = refl
  lanes_of-served sent q (some (t, rest)) = refl

  lanes_of-turn :
      (sent : Bool) (q : WriteQueue A)
      → q.fast ≡ true
      → IsPartitioned q.tasks
      → (lanes_of (turn sent q).0, (turn sent q).1) ≡ lane_send q.max_high_streak sent (lanes_of q)
  unfolding turn lane_send
  lanes_of-turn sent q f part =
      lanes_of-served sent q (dequeue q)
      ∙ ap (lane_after sent (lanes_of q)) (dequeue-lanes q f part)

  only-one :
      (t : Task A)
      → (is_high t.priority ≡ true → (only high (t ∷ []) ≡ t ∷ []) × (only normal (t ∷ []) ≡ []))
        × (is_high t.priority ≡ false → (only high (t ∷ []) ≡ []) × (only normal (t ∷ []) ≡ t ∷ []))
  only-one t = ground arith

  enqueue_keeps :
      (t : Task A) (q : WriteQueue A)
      → ((enqueue t q).streak ≡ q.streak)
        × ((enqueue t q).fast ≡ q.fast)
        × ((enqueue t q).max_high_streak ≡ q.max_high_streak)
  unfolding enqueue
  enqueue_keeps t q = (refl, refl, refl)

  IsOrdered-fast : (b : Bool) (ts : List (Task A)) → b ≡ true → IsPartitioned ts → IsOrdered b ts
  IsOrdered-fast true ts f part = part
  IsOrdered-fast false ts f part = tt

  lanes_of-enqueue :
      (t : Task A) (q : WriteQueue A)
      → q.fast ≡ true
      → IsPartitioned q.tasks
      → lanes_of (enqueue t q) ≡ lane_put t (lanes_of q)
  unfolding lane_put
  lanes_of-enqueue t q f part =
      let part' = IsOrdered-fast q.fast q.tasks f part in
      let hi = only-enqueue high t q part' in
      let lo = only-enqueue normal t q part' in
      elim (Bool-cases (is_high t.priority)) [
        | inl up ↦
            let one = (only-one t).0 up in
            simp (hi, lo, (enqueue_keeps t q).0, one.1, up, append-nil) refl
        | inr down ↦
            let one = (only-one t).1 down in
            simp (hi, lo, (enqueue_keeps t q).0, one.1, down, append-nil) refl
      ]

  served_keeps :
      (sent : Bool) (q : WriteQueue A) (o : Option (Task A × List (Task A)))
      → ((served sent q o).0.fast ≡ q.fast)
        × ((served sent q o).0.max_high_streak ≡ q.max_high_streak)
  unfolding served
  served_keeps sent q none = (refl, refl)
  served_keeps sent q (some (t, rest)) = (refl, refl)

  turn_keeps :
      (sent : Bool) (q : WriteQueue A)
      → ((turn sent q).0.fast ≡ q.fast) × ((turn sent q).0.max_high_streak ≡ q.max_high_streak)
  unfolding turn
  turn_keeps sent q = served_keeps sent q (dequeue q)

  -- On the fast path, from a queue in which nothing high waits behind a normal task, a run of puts and
  -- sends, with whatever outcomes, sends the tasks that the two lines send, in their order, and leaves
  -- what the two lines leave.
  pub run-refines :
      (ops : List (Op A)) (q : WriteQueue A)
      → q.fast ≡ true
      → IsPartitioned q.tasks
      → (lanes_of (run ops q).0 ≡ (lane_run q.max_high_streak ops (lanes_of q)).0)
        × ((run ops q).1 ≡ (lane_run q.max_high_streak ops (lanes_of q)).1)
  unfolding run lane_run
  run-refines [] q f part = (refl, refl)
  run-refines (put t ∷ ops) q f part =
      let ih =
        run-refines ops (enqueue t q) ((enqueue_keeps t q).1 ∙ f)
          (enqueue-IsPartitioned t q f part) in
      simp (lanes_of-enqueue t q f part, (enqueue_keeps t q).2) at ih
  run-refines (send sent ∷ ops) q f part =
      let q' = (turn sent q).0 in
      let ih = run-refines ops q' ((turn_keeps sent q).0 ∙ f) (turn-IsPartitioned sent q part) in
      let e = lanes_of-turn sent q f part in
      let ih' = simp (turn_keeps sent q).1 at ih in
      rw (← ap (λ x. x.0) e, ← ap (λ x. x.1) e)
        (ih'.0, ap (λ ts. to_list (turn sent q).1 ++ ts) ih'.1)
