-- ===== src/Services/Worker.antt =====
-- The job map and the chain of promises of queue.js: `scheduleWork` appends to the chain, so jobs
-- run one at a time and in the order in which they came.
use audit_guard.Prelude.{ℕ, String, ◌≡◌, Option, none, some, List, [], ◌∷◌, ◌++◌}
use audit_guard.Prelude.Map
use audit_guard.Prelude.Map.{Map}

pub data Status : Type 0 where
  queued running done failed : Status

-- What the worker needs of a service's job. The laws say what `runJob` does to the status.
pub record Service (J : Type 0) : Type 0 where
  pub status : J → Status
  pub begin : ℕ → J → J
  pub finish : ℕ → J → J
  pub status-begin : (n : ℕ) (j : J) → status (begin n j) ≡ running
  pub status-finish : (n : ℕ) (j : J) → status (finish n j) ≡ done

-- `jobs`, the jobs that wait in the chain, and the job whose `runJob` has begun.
pub record Queue (J : Type 0) : Type 0 where
  pub jobs : Map J
  pub waiting : List String
  pub current : Option String

abbrev pub empty : {J : Type 0} → Queue J
empty = record { jobs = []; waiting = []; current = none }

module _ {J : Type 0} where
  -- `jobs.set(id, job); scheduleWork(job)`
  unfoldable pub submit : String → J → Queue J → Queue J
  submit id job q = record q { jobs = Map.set id job q.jobs; waiting = q.waiting ++ id ∷ [] }

  unfoldable pub update : (J → J) → String → Option J → Map J → Map J
  update f id none jobs = jobs
  update f id (some job) jobs = Map.set id (f job) jobs

module _ {J : Type 0} (service : Service J) where
  unfoldable pub start_next : ℕ → Option String → List String → Queue J → Queue J
  unfolding update
  start_next now (some id) waiting q = q
  start_next now none [] q = q
  start_next now none (id ∷ rest) q = record {
    jobs = update (service.begin now) id (Map.get id q.jobs) q.jobs;
    waiting = rest;
    current = some id;
  }

  -- The next link of the chain begins when the one before it has settled.
  unfoldable pub start : ℕ → Queue J → Queue J
  unfolding start_next
  start now q = start_next now q.current q.waiting q

  unfoldable pub finish_current : ℕ → Option String → Queue J → Queue J
  unfolding update
  finish_current now none q = q
  finish_current now (some id) q = record q {
    jobs = update (service.finish now) id (Map.get id q.jobs) q.jobs;
    current = none;
  }

  unfoldable pub finish : ℕ → Queue J → Queue J
  unfolding finish_current
  finish now q = finish_current now q.current q
