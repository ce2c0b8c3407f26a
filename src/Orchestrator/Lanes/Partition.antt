-- ===== src/Orchestrator/Lanes/Partition.antt =====
-- That the write queue of orchestrator/src/contract-client.js keeps its high tasks before the normal
-- ones.
use audit_guard.Prelude.{
  ◌≡◌, refl, Bool, true, false, Option, none, some, List, [], ◌∷◌, ◌++◌, ◌&&◌, ltb, leb, arith,
  Bool-cases, inl, inr, ◌∙◌,
}
use audit_guard.Orchestrator.WriteQueue.{
  high, Task, is_high, WriteQueue, insert_high, enqueue, take_normal, behind, or_shift, shift,
  choose, dequeue, served, turn,
}
use audit_guard.Orchestrator.SendOrder.{only, IsPartitioned}

module _ {A : Type 0} where
  -- Nothing high waits behind a normal task.
  insert_high-IsPartitioned :
      (t : Task A) (ts : List (Task A))
      → is_high t.priority ≡ true
      → IsPartitioned ts
      → IsPartitioned (insert_high t ts)
  unfolding insert_high
  insert_high-IsPartitioned t [] h o = (ground arith, tt)
  insert_high-IsPartitioned t (u ∷ us) h o = elim (Bool-cases (is_high u.priority)) [
    | inl up ↦ simp up ((λ e. cc), insert_high-IsPartitioned t us h o.1)
    | inr down ↦ simp down ((λ e. cc), ((λ e. o.0 down), o.1))
  ]

  only-snoc_normal :
      (t : Task A) (ts : List (Task A))
      → is_high t.priority ≡ false
      → only high (ts ++ t ∷ []) ≡ only high ts
  only-snoc_normal t [] h = ground arith
  only-snoc_normal t (u ∷ us) h = ground (arith, only-snoc_normal t us h)

  snoc-IsPartitioned :
      (t : Task A) (ts : List (Task A))
      → is_high t.priority ≡ false
      → IsPartitioned ts
      → IsPartitioned (ts ++ t ∷ [])
  snoc-IsPartitioned t [] h o = ((λ e. refl), tt)
  snoc-IsPartitioned t (u ∷ us) h o =
      ((λ e. only-snoc_normal t us h ∙ o.0 e), snoc-IsPartitioned t us h o.1)

  pub enqueue-IsPartitioned :
      (t : Task A) (q : WriteQueue A)
      → q.fast ≡ true
      → IsPartitioned q.tasks
      → IsPartitioned (enqueue t q).tasks
  unfolding enqueue
  enqueue-IsPartitioned t q f o = elim (Bool-cases (is_high t.priority)) [
    | inl up ↦ simp (f, up) (insert_high-IsPartitioned t q.tasks up o)
    | inr down ↦ simp (f, down) (snoc-IsPartitioned t q.tasks down o)
  ]

  shift-IsPartitioned :
      (ts : List (Task A)) (t : Task A) (rest : List (Task A))
      → IsPartitioned ts
      → shift ts ≡ some (t, rest)
      → IsPartitioned rest
  unfolding shift
  shift-IsPartitioned [] t rest o e = cc
  shift-IsPartitioned (u ∷ us) t rest o e = let f : us ≡ rest = ground arith in rw (← f) o.1

  behind-IsPartitioned :
      (u : Task A) (o : Option (Task A × List (Task A))) (t : Task A) (rest : List (Task A))
      → is_high u.priority ≡ true
      → behind u o ≡ some (t, rest)
      → ((t : Task A) (rest : List (Task A)) → o ≡ some (t, rest) → IsPartitioned rest)
      → IsPartitioned rest
  unfolding behind
  behind-IsPartitioned u none t rest up e ih = cc
  behind-IsPartitioned u (some (n, front)) t rest up e ih =
      let f : u ∷ front ≡ rest = ground arith in rw (← f) ((λ d. cc), ih n front refl)

  take_normal-IsPartitioned :
      (ts : List (Task A)) (t : Task A) (rest : List (Task A))
      → IsPartitioned ts
      → take_normal ts ≡ some (t, rest)
      → IsPartitioned rest
  unfolding take_normal
  take_normal-IsPartitioned [] t rest o e = cc
  take_normal-IsPartitioned (u ∷ us) t rest o e = elim (Bool-cases (is_high u.priority)) [
    | inl up ↦
        behind-IsPartitioned u (take_normal us) t rest up (ground arith)
          (λ t' rest' e'. take_normal-IsPartitioned us t' rest' o.1 e')
    | inr down ↦ let f : us ≡ rest = ground arith in rw (← f) o.1
  ]

  or_shift-IsPartitioned :
      (ts : List (Task A)) (o : Option (Task A × List (Task A))) (t : Task A) (rest : List (Task A))
      → IsPartitioned ts
      → take_normal ts ≡ o
      → or_shift o ts ≡ some (t, rest)
      → IsPartitioned rest
  unfolding or_shift
  or_shift-IsPartitioned ts none t rest part n e = shift-IsPartitioned ts t rest part e
  or_shift-IsPartitioned ts (some found) t rest part n e =
      take_normal-IsPartitioned ts t rest part (n ∙ e)

  dequeue-IsPartitioned :
      (q : WriteQueue A) (t : Task A) (rest : List (Task A))
      → IsPartitioned q.tasks
      → dequeue q ≡ some (t, rest)
      → IsPartitioned rest
  unfolding dequeue choose
  dequeue-IsPartitioned q t rest part e =
      elim (Bool-cases (q.fast && ltb 0 q.max_high_streak && leb q.max_high_streak q.streak)) [
        | inl full ↦
            or_shift-IsPartitioned q.tasks (take_normal q.tasks) t rest part refl (rw full at e)
        | inr free ↦ shift-IsPartitioned q.tasks t rest part (rw free at e)
      ]

  served-IsPartitioned :
      (sent : Bool) (q : WriteQueue A) (o : Option (Task A × List (Task A)))
      → IsPartitioned q.tasks
      → dequeue q ≡ o
      → IsPartitioned (served sent q o).0.tasks
  unfolding served
  served-IsPartitioned sent q none part e = part
  served-IsPartitioned sent q (some (t, rest)) part e = dequeue-IsPartitioned q t rest part e

  pub turn-IsPartitioned :
      (sent : Bool) (q : WriteQueue A) → IsPartitioned q.tasks → IsPartitioned (turn sent q).0.tasks
  unfolding turn
  turn-IsPartitioned sent q part = served-IsPartitioned sent q (dequeue q) part refl
