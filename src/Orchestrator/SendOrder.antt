-- ===== src/Orchestrator/SendOrder.antt =====
-- The order of the write queue: tasks of one priority are sent in the order in which they came.
use mathlib.Core.Bool.{false≢true}
use mathlib.Core.List.{append-nil}
use audit_guard.Prelude.{
  ◌≡◌, refl, Bool, true, false, Option, none, some, List, [], ◌∷◌, ◌++◌, ◌&&◌, ltb, leb, arith,
  Bool-cases, inl, inr, if◌then◌else◌, ◌∙◌, sym,
}
use audit_guard.Orchestrator.WriteQueue.{
  Priority, high, normal, Task, is_high, WriteQueue, insert_high, enqueue, take_normal, behind,
  or_shift, shift, choose, dequeue, served, turn, go_on, drain,
}

abbrev pub same : Priority → Priority → Bool
same high high = true
same normal normal = true
same _ _ = false

and-left : (a b : Bool) → a && b ≡ true → a ≡ true
and-left a b h = ground arith

and-right : (a b : Bool) → a && b ≡ true → b ≡ true
and-right a b h = ground arith

abbrev pub to_list : {A : Type 0} → Option A → List A
to_list none = []
to_list (some a) = a ∷ []

module _ {A : Type 0} where
  -- The tasks of one priority.
  abbrev pub only : Priority → List (Task A) → List (Task A)
  only p [] = []
  only p (t ∷ ts) = let rest = only p ts in if same p t.priority then t ∷ rest else rest

  only-append : (p : Priority) (ts us : List (Task A)) → only p (ts ++ us) ≡ only p ts ++ only p us
  only-append p [] us = refl
  only-append p (t ∷ ts) us = ground (arith, only-append p ts us)

  -- Behind a normal task there is no high one.
  abbrev pub IsPartitioned : List (Task A) → Type 0
  IsPartitioned [] = Unit
  IsPartitioned (t ∷ ts) = (is_high t.priority ≡ false → only high ts ≡ []) × IsPartitioned ts

  -- The queue of the fast path is partitioned; without the fast path it is one line.
  abbrev pub IsOrdered : Bool → List (Task A) → Type 0
  IsOrdered true ts = IsPartitioned ts
  IsOrdered false ts = Unit

  only-insert_high :
      (p : Priority) (t : Task A) (ts : List (Task A))
      → is_high t.priority ≡ true
      → IsPartitioned ts
      → only p (insert_high t ts) ≡ only p ts ++ only p (t ∷ [])
  unfolding insert_high
  only-insert_high p t [] h o = refl
  only-insert_high high t (u ∷ us) h o = ground (arith, only-insert_high high t us, o.0)
  only-insert_high normal t (u ∷ us) h o =
      ground (arith, only-insert_high normal t us, append-nil (only normal us))

  -- In a queue which on the fast path has no high task behind a normal one, a new task goes behind
  -- those of its priority, and the others keep their order.
  pub only-enqueue :
      (p : Priority) (t : Task A) (q : WriteQueue A)
      → IsOrdered q.fast q.tasks
      → only p (enqueue t q).tasks ≡ only p q.tasks ++ only p (t ∷ [])
  unfolding enqueue
  only-enqueue p t q o = elim (Bool-cases (q.fast && is_high t.priority)) [
    | inl to_front ↦ rw to_front (
        only-insert_high p t q.tasks (and-right q.fast _ to_front)
          (ordered q.fast (and-left q.fast _ to_front) o))
    | inr to_back ↦ rw to_back (only-append p q.tasks (t ∷ []))
  ]
    where
      ordered : (b : Bool) → b ≡ true → IsOrdered b q.tasks → IsPartitioned q.tasks
      ordered true e o = o
      ordered false e o = elim (false≢true e) [ ]

  only-behind :
      (p : Priority) (t : Task A) (ts : List (Task A)) (o : Option (Task A × List (Task A)))
      (n : Task A) (rest : List (Task A))
      → is_high t.priority ≡ true
      → behind t o ≡ some (n, rest)
      → ((n : Task A) (rest : List (Task A))
          → o ≡ some (n, rest)
          → (n.priority ≡ normal) × (only p ts ≡ only p (n ∷ []) ++ only p rest))
      → (n.priority ≡ normal) × (only p (t ∷ ts) ≡ only p (n ∷ []) ++ only p rest)
  unfolding behind
  only-behind p t ts none n rest h e ih = cc
  only-behind high t ts (some (m, front)) n rest h e ih = ground (arith, ih m front refl)
  only-behind normal t ts (some (m, front)) n rest h e ih = ground (arith, ih m front refl)

  front :
      (p : Priority) (t : Task A) (ts : List (Task A)) (n : Task A) (rest : List (Task A))
      → is_high t.priority ≡ false
      → (t ≡ n) × (ts ≡ rest)
      → (n.priority ≡ normal) × (only p (t ∷ ts) ≡ only p (n ∷ []) ++ only p rest)
  front high t ts n rest h (e, f) = ground arith
  front normal t ts n rest h (e, f) = ground arith

  -- The first normal task goes before the other normal ones, and past high ones only.
  pub take_normal_lem :
      (p : Priority) (ts : List (Task A)) (n : Task A) (rest : List (Task A))
      → take_normal ts ≡ some (n, rest)
      → (n.priority ≡ normal) × (only p ts ≡ only p (n ∷ []) ++ only p rest)
  unfolding take_normal
  take_normal_lem p [] n rest e = cc
  take_normal_lem p (t ∷ ts) n rest e = elim (Bool-cases (is_high t.priority)) [
    | inl up ↦ only-behind p t ts (take_normal ts) n rest up (ground arith) (take_normal_lem p ts)
    | inr down ↦ front p t ts n rest down (ground arith)
  ]

  pub no_normal : (ts : List (Task A)) → take_normal ts ≡ none → only normal ts ≡ []
  unfolding take_normal behind
  no_normal [] e = refl
  no_normal (t ∷ ts) e = ground (arith, no_normal ts)

  only-shift :
      (p : Priority) (ts : List (Task A)) (t : Task A) (rest : List (Task A))
      → shift ts ≡ some (t, rest)
      → only p ts ≡ only p (t ∷ []) ++ only p rest
  unfolding shift
  only-shift p [] t rest e = cc
  only-shift high (u ∷ us) t rest e = ground arith
  only-shift normal (u ∷ us) t rest e = ground arith

  only-or_shift :
      (p : Priority) (ts : List (Task A)) (o : Option (Task A × List (Task A))) (t : Task A)
      (rest : List (Task A))
      → take_normal ts ≡ o
      → or_shift o ts ≡ some (t, rest)
      → only p ts ≡ only p (t ∷ []) ++ only p rest
  unfolding or_shift
  only-or_shift p ts none t rest n e = only-shift p ts t rest e
  only-or_shift p ts (some found) t rest n e = (take_normal_lem p ts t rest (n ∙ e)).1

  -- The task that is sent next is the oldest of its priority, and the others stay as they are.
  pub only-dequeue :
      (p : Priority) (q : WriteQueue A) (t : Task A) (rest : List (Task A))
      → dequeue q ≡ some (t, rest)
      → only p q.tasks ≡ only p (t ∷ []) ++ only p rest
  unfolding dequeue
  only-dequeue p q t rest e =
      elim (Bool-cases (q.fast && ltb 0 q.max_high_streak && leb q.max_high_streak q.streak)) [
        | inl full ↦
            only-or_shift p q.tasks (take_normal q.tasks) t rest refl (rw (full, choose) at e)
        | inr free ↦ only-shift p q.tasks t rest (rw (free, choose) at e)
      ]

  only-served :
      (p : Priority) (sent : Bool) (q : WriteQueue A) (o : Option (Task A × List (Task A)))
      → dequeue q ≡ o
      → only p q.tasks ≡ only p (to_list (served sent q o).1) ++ only p (served sent q o).0.tasks
  unfolding served
  only-served p sent q none e = refl
  only-served p sent q (some (t, rest)) e = only-dequeue p q t rest e

  only-go_on :
      (p : Priority) (o : Option (Task A)) (q : WriteQueue A) (rest : WriteQueue A × List (Task A))
      → only p rest.1 ++ only p rest.0.tasks ≡ only p q.tasks
      → only p (go_on o q rest).1 ++ only p (go_on o q rest).0.tasks
        ≡ only p (to_list o) ++ only p q.tasks
  unfolding go_on
  only-go_on p none q rest ih = refl
  only-go_on high (some t) q (end, sent) ih = ground arith
  only-go_on normal (some t) q (end, sent) ih = ground arith

  -- However its sends end, the loop sends the tasks of each priority in the order in which they came:
  -- those that it has sent, followed by those that still wait, are those that waited.
  pub only-drain :
      (p : Priority) (outcomes : List Bool) (q : WriteQueue A)
      → only p (drain outcomes q).1 ++ only p (drain outcomes q).0.tasks ≡ only p q.tasks
  unfolding drain turn
  only-drain p [] q = refl
  only-drain p (sent ∷ outcomes) q =
      let t = turn sent q in
      only-go_on p t.1 t.0 (drain outcomes t.0) (only-drain p outcomes t.0)
      ∙ sym (only-served p sent q (dequeue q) refl)
