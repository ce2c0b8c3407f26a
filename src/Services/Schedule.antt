-- ===== src/Services/Schedule.antt =====
-- The worker's schedule: the status of a job says where the job stands in the chain.
use mathlib.Core.Option
use audit_guard.Prelude.{
  ℕ, String, ◌≡◌, refl, Bool, true, false, Option, none, some, List, [], ◌∷◌, ◌++◌, ◌||◌, arith,
  any, ◌≢◌, ◌===◌, eq_iff, eq_refl, if◌then◌else◌,
}
use audit_guard.Prelude.Map
use audit_guard.Prelude.Map.{get-set, Map}
use audit_guard.Services.Worker.{
  Status, queued, running, done, Service, Queue, empty, submit, update, start, start_next, finish,
  finish_current,
}

abbrev pub waits : String → List String → Bool
waits id = any (λ j. j === id)

abbrev pub IsOnce : List String → Type 0
IsOnce [] = Unit
IsOnce (id ∷ ids) = (waits id ids ≡ false) × IsOnce ids

waits-snoc :
    (j : String) (ids : List String) (id : String)
    → waits j (ids ++ id ∷ []) ≡ (waits j ids || id === j)
waits-snoc j [] id = ground arith
waits-snoc j (x ∷ ids) id = ground (arith, waits-snoc j ids id)

snoc-IsOnce :
    (ids : List String) (id : String) → waits id ids ≡ false → IsOnce ids → IsOnce (ids ++ id ∷ [])
snoc-IsOnce [] id new h = (refl, tt)
snoc-IsOnce (x ∷ ids) id new h = (
  ground (arith, waits-snoc x ids id, eq_iff id x, eq_iff x id),
  snoc-IsOnce ids id (ground arith) h.1,
)

-- Of the statuses, the chain and the current job: a job is queued exactly while it waits, it waits
-- once, and a job is running exactly while it is the current one.
pub record IsScheduled (st : String → Option Status) (waiting : List String)
    (current : Option String) : Type 0 where
  pub waiting_queued : (id : String) → waits id waiting ≡ true → st id ≡ some queued
  pub queued_waits : (id : String) → st id ≡ some queued → waits id waiting ≡ true
  pub once : IsOnce waiting
  pub running_current : (id : String) → st id ≡ some running → current ≡ some id
  pub current_running : (id : String) → current ≡ some id → st id ≡ some running

module _ (st st' : String → Option Status) (id : String) (waiting : List String)
    (current : Option String) where
  submit-IsScheduled :
      ((j : String) → st' j ≡ (if id === j then some queued else st j))
      → st id ≡ none
      → IsScheduled st waiting current
      → IsScheduled st' (waiting ++ id ∷ []) current
  submit-IsScheduled e new h = record {
    waiting_queued = λ j w. ground (arith, e j, waits-snoc j waiting id, h.waiting_queued j);
    queued_waits = λ j w. ground (arith, e j, waits-snoc j waiting id, h.queued_waits j);
    once = snoc-IsOnce waiting id (ground (arith, h.waiting_queued id)) h.once;
    running_current = λ j w. ground (arith, e j, h.running_current j);
    current_running = λ j w. ground (arith, e j, eq_iff id j, h.current_running j);
  }

  start-IsScheduled :
      ((j : String) → st' j ≡ (if id === j then some running else st j))
      → IsScheduled st (id ∷ waiting) none
      → IsScheduled st' waiting (some id)
  start-IsScheduled e h = record {
    waiting_queued = λ j w. ground (arith, e j, eq_iff id j, h.once, h.waiting_queued j);
    queued_waits = λ j w. ground (arith, e j, h.queued_waits j);
    once = h.once.1;
    running_current = λ j w. ground (arith, e j, eq_iff id j, h.running_current j);
    current_running = λ j w. ground (arith, e j, eq_iff id j);
  }

  finish-IsScheduled :
      ((j : String) → st' j ≡ (if id === j then some done else st j))
      → IsScheduled st waiting (some id)
      → IsScheduled st' waiting none
  finish-IsScheduled e h = record {
    waiting_queued =
        λ j w. ground (arith, e j, eq_iff id j, h.waiting_queued j, h.current_running id);
    queued_waits = λ j w. ground (arith, e j, h.queued_waits j);
    once = h.once;
    running_current = λ j w. ground (arith, e j, eq_iff id j, h.running_current j);
    current_running = λ j w. cc;
  }

module _ {J : Type 0} (service : Service J) where
  abbrev pub status_of : Queue J → String → Option Status
  status_of q id = Option.map service.status (Map.get id q.jobs)

  abbrev pub Scheduled : Queue J → Type 0
  Scheduled q = IsScheduled (status_of q) q.waiting q.current

  -- What can happen to the queue: a request with a new identifier, the next link of the chain, and
  -- the end of the current job.
  pub data Step (q : Queue J) : Queue J → Type 0 where
    submitted :
        (id : String) (job : J)
        → Map.get id q.jobs ≡ none
        → service.status job ≡ queued
        → Step q (submit id job q)
    started : (now : ℕ) → Step q (start service now q)
    finished : (now : ℕ) → Step q (finish service now q)

  pub data Reach : Queue J → Type 0 where
    here : Reach empty
    next : {q r : Queue J} → Reach q → Step q r → Reach r

  status-update :
      (f : J → J) (x : Status) (id j : String) (o : Option J) (m : Map J)
      → ((job : J) → service.status (f job) ≡ x)
      → Map.get id m ≡ o
      → Option.map service.status o ≢ none
      → Option.map service.status (Map.get j (update f id o m))
        ≡ (if id === j then some x else Option.map service.status (Map.get j m))
  unfolding update
  status-update f x id j none m e q there = absurd (there refl)
  status-update f x id j (some job) m e q there = ground (arith, get-set id j (f job) m, e job)

  known : (q : Queue J) (id : String) (x : Status) → status_of q id ≡ some x → status_of q id ≢ none
  known q id x e z = cc

  pub start_status :
      (now : ℕ) (id : String) (rest : List String) (q : Queue J)
      → IsScheduled (status_of q) (id ∷ rest) none
      → (j : String)
      → status_of (start_next service now none (id ∷ rest) q) j
        ≡ (if id === j then some running else status_of q j)
  unfolding start_next
  start_status now id rest q h j =
      status-update (service.begin now) running id j (Map.get id q.jobs) q.jobs
        (service.status-begin now) refl
        (known q id queued (h.waiting_queued id (ground (arith, eq_refl id))))

  start_next-Scheduled :
      (now : ℕ) (waiting : List String) (current : Option String) (q : Queue J)
      → IsScheduled (status_of q) waiting current
      → q.waiting ≡ waiting
      → q.current ≡ current
      → Scheduled (start_next service now current waiting q)
  start_next-Scheduled now waiting (some id) q h w c = unfold start_next in rw (w, c) h
  start_next-Scheduled now [] none q h w c = unfold start_next in rw (w, c) h
  start_next-Scheduled now (id ∷ rest) none q h w c =
      let e = start_status now id rest q h in
      unfold start_next in
      start-IsScheduled (status_of q) (status_of (start_next service now none (id ∷ rest) q)) id
        rest none e h

  pub finish_status :
      (now : ℕ) (id : String) (q : Queue J)
      → status_of q id ≡ some running
      → (j : String)
      → status_of (finish_current service now (some id) q) j
        ≡ (if id === j then some done else status_of q j)
  unfolding finish_current
  finish_status now id q e j =
      status-update (service.finish now) done id j (Map.get id q.jobs) q.jobs
        (service.status-finish now) refl (known q id running e)

  finish_current-Scheduled :
      (now : ℕ) (current : Option String) (q : Queue J)
      → IsScheduled (status_of q) q.waiting current
      → q.current ≡ current
      → Scheduled (finish_current service now current q)
  finish_current-Scheduled now none q h c = unfold finish_current in rw c h
  finish_current-Scheduled now (some id) q h c =
      let e = finish_status now id q (h.current_running id refl) in
      unfold finish_current in
      finish-IsScheduled (status_of q) (status_of (finish_current service now (some id) q)) id
        q.waiting none e h

  pub Step-Scheduled : {q r : Queue J} → Step q r → Scheduled q → Scheduled r
  unfolding submit start finish
  Step-Scheduled {q} (submitted id job new fresh) h =
      submit-IsScheduled (status_of q) (status_of (submit id job q)) id q.waiting q.current
        (λ j. ground (arith, get-set id j job q.jobs)) (ground arith) h
  Step-Scheduled {q} (started now) h = start_next-Scheduled now q.waiting q.current q h refl refl
  Step-Scheduled {q} (finished now) h = finish_current-Scheduled now q.current q h refl

  -- However requests, starts and ends follow one another from the empty queue, a job is queued
  -- exactly while it waits, it waits once, and at most one job runs: the current one.
  pub Reach-Scheduled : {q : Queue J} → Reach q → Scheduled q
  Reach-Scheduled here = record {
    waiting_queued = λ id w. cc;
    queued_waits = λ id w. unfold Map.get in cc;
    once = tt;
    running_current = λ id w. unfold Map.get in cc;
    current_running = λ id w. cc;
  }
  Reach-Scheduled (next r s) = Step-Scheduled s (Reach-Scheduled r)
