-- ===== src/Orchestrator/Lanes.antt =====
-- What the write queue of orchestrator/src/contract-client.js promises on its fast path: two lines,
-- one for each priority, each first in, first out, and a limit to the high tasks sent in a row.
use audit_guard.Prelude.{
  ℕ, ◌+◌, ◌≡◌, refl, Bool, true, false, Option, none, some, List, [], ◌∷◌, ◌++◌, ◌&&◌, ltb, leb,
  arith, Bool-cases, Option-cases, inl, inr, if◌then◌else◌, ◌∙◌, sym, ap,
}
use mathlib.Core.List.{append-nil}
use audit_guard.Orchestrator.WriteQueue.{
  Priority, high, normal, Task, is_high, next_streak, WriteQueue, insert_high, enqueue, take_normal,
  behind, or_shift, shift, choose, dequeue, served, turn,
}
use audit_guard.Orchestrator.SendOrder.{
  only, IsPartitioned, only-enqueue, take_normal_lem, no_normal, to_list,
}
pub mod Partition
pub mod Refines
mod Examples

pub record Lanes (A : Type 0) : Type 0 where
  pub highs : List (Task A)
  pub normals : List (Task A)
  pub streak : ℕ

-- What a user of the queue does: put a task, or have the next one sent, with its outcome.
pub data Op (A : Type 0) : Type 0 where
  put : Task A → Op A
  send : Bool → Op A

module _ {A : Type 0} where
  unfoldable pub lane_put : Task A → Lanes A → Lanes A
  lane_put t l =
      if is_high t.priority
      then record l { highs = l.highs ++ t ∷ [] }
      else record l { normals = l.normals ++ t ∷ [] }

  -- The next task, and what is left of the two lanes.
  unfoldable pub first_high :
      List (Task A) → List (Task A) → Option (Task A × List (Task A) × List (Task A))
  first_high (h ∷ hs) ns = some (h, hs, ns)
  first_high [] (n ∷ ns) = some (n, [], ns)
  first_high [] [] = none

  unfoldable pub first_normal :
      List (Task A) → List (Task A) → Option (Task A × List (Task A) × List (Task A))
  unfolding first_high
  first_normal hs (n ∷ ns) = some (n, hs, ns)
  first_normal hs [] = first_high hs []

  unfoldable pub lane_after :
      Bool → Lanes A → Option (Task A × List (Task A) × List (Task A)) → Lanes A × Option (Task A)
  unfolding next_streak
  lane_after sent l none = (l, none)
  lane_after sent l (some (t, hs, ns)) =
      (record { highs = hs; normals = ns; streak = next_streak sent t.priority l.streak }, some t)

  -- After `most` high tasks in a row a normal one goes first, else a high one.
  unfoldable pub lane_send : ℕ → Bool → Lanes A → Lanes A × Option (Task A)
  unfolding first_high first_normal lane_after
  lane_send most sent l = lane_after sent l (
      if ltb 0 most && leb most l.streak
      then first_normal l.highs l.normals
      else first_high l.highs l.normals)

  abbrev pub lanes_of : WriteQueue A → Lanes A
  lanes_of q = record {
    highs = only high q.tasks;
    normals = only normal q.tasks;
    streak = q.streak;
  }

  -- A run of the queue, with the tasks that it sends, and the same on the two lines.
  unfoldable pub run : List (Op A) → WriteQueue A → WriteQueue A × List (Task A)
  run [] q = (q, [])
  run (put t ∷ ops) q = run ops (enqueue t q)
  run (send sent ∷ ops) q =
      let (q', t) = turn sent q in let (end, ts) = run ops q' in (end, to_list t ++ ts)

  unfoldable pub lane_run : ℕ → List (Op A) → Lanes A → Lanes A × List (Task A)
  lane_run most [] l = (l, [])
  lane_run most (put t ∷ ops) l = lane_run most ops (lane_put t l)
  lane_run most (send sent ∷ ops) l =
      let (l', t) = lane_send most sent l in
      let (end, ts) = lane_run most ops l' in (end, to_list t ++ ts)
