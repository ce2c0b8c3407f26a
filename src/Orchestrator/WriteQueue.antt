-- ===== src/Orchestrator/WriteQueue.antt =====
-- The write queue of orchestrator/src/contract-client.js. A task's `sendFn` is opaque: `A` names it,
-- and whether it throws is given to each round.
use audit_guard.Prelude.{
  ℕ, ◌+◌, Bool, true, false, Option, none, some, List, [], ◌∷◌, ◌++◌, ◌&&◌, ltb, leb, if◌then◌else◌,
}

pub data Priority : Type 0 where
  high normal : Priority

pub record Task (A : Type 0) : Type 0 where
  pub send : A
  pub priority : Priority

abbrev pub is_high : Priority → Bool
is_high high = true
is_high normal = false

pub record WriteQueue (A : Type 0) : Type 0 where
  pub fast : Bool
  pub max_high_streak : ℕ
  pub tasks : List (Task A)
  pub streak : ℕ

-- The streak after a task: a send that throws leaves it as it was.
unfoldable pub next_streak : Bool → Priority → ℕ → ℕ
next_streak false p streak = streak
next_streak true high streak = streak + 1
next_streak true normal streak = 0

module _ {A : Type 0} where
  -- `splice(firstNormalIndex, 0, task)`, or `push` where no task is normal.
  unfoldable pub insert_high : Task A → List (Task A) → List (Task A)
  insert_high task [] = task ∷ []
  insert_high task (t ∷ ts) = if is_high t.priority then t ∷ insert_high task ts else task ∷ t ∷ ts

  unfoldable pub enqueue : Task A → WriteQueue A → WriteQueue A
  unfolding insert_high
  enqueue task q = record q {
    tasks =
        if q.fast && is_high task.priority then insert_high task q.tasks else q.tasks ++ task ∷ [];
  }

  unfoldable pub behind : Task A → Option (Task A × List (Task A)) → Option (Task A × List (Task A))
  behind t none = none
  behind t (some (n, rest)) = some (n, t ∷ rest)

  -- The first task that is not high, and the others, if there is one.
  unfoldable pub take_normal : List (Task A) → Option (Task A × List (Task A))
  unfolding behind
  take_normal [] = none
  take_normal (t ∷ ts) = if is_high t.priority then behind t (take_normal ts) else some (t, ts)

  unfoldable pub shift : List (Task A) → Option (Task A × List (Task A))
  shift [] = none
  shift (t ∷ ts) = some (t, ts)

  unfoldable pub or_shift :
      Option (Task A × List (Task A)) → List (Task A) → Option (Task A × List (Task A))
  unfolding shift
  or_shift none tasks = shift tasks
  or_shift (some found) tasks = some found

  -- `_dequeueNextWriteTask`, on the tasks that are there.
  unfoldable pub choose : Bool → ℕ → ℕ → List (Task A) → Option (Task A × List (Task A))
  unfolding take_normal or_shift
  choose fast most streak tasks =
      if fast && ltb 0 most && leb most streak
      then or_shift (take_normal tasks) tasks
      else shift tasks

  unfoldable pub dequeue : WriteQueue A → Option (Task A × List (Task A))
  unfolding choose
  dequeue q = choose q.fast q.max_high_streak q.streak q.tasks

  unfoldable pub served :
      Bool → WriteQueue A → Option (Task A × List (Task A)) → WriteQueue A × Option (Task A)
  unfolding next_streak
  served sent q none = (q, none)
  served sent q (some (task, rest)) =
      (record q { tasks = rest; streak = next_streak sent task.priority q.streak }, some task)

  -- One turn of the loop of `_drainWriteQueue`; `sent` says whether the task's promise resolved.
  unfoldable pub turn : Bool → WriteQueue A → WriteQueue A × Option (Task A)
  unfolding served dequeue
  turn sent q = served sent q (dequeue q)

  unfoldable pub go_on :
      Option (Task A) → WriteQueue A → WriteQueue A × List (Task A) → WriteQueue A × List (Task A)
  go_on none q rest = (q, [])
  go_on (some t) q (end, sent) = (end, t ∷ sent)

  -- The loop: `outcomes` holds the outcome of each send, and the loop ends when no task is left.
  unfoldable pub drain : List Bool → WriteQueue A → WriteQueue A × List (Task A)
  unfolding go_on
  drain [] q = (q, [])
  drain (sent ∷ outcomes) q = let (q', task) = turn sent q in go_on task q' (drain outcomes q')
