-- ===== src/Orchestrator/Closing/SingleFlight.antt =====
-- The runs of `closeExpiredAuction` of orchestrator/src/orchestrator.js that are under way together:
-- calls begin and end in any order, and runs change jobs and timers in between.
use audit_guard.Prelude.{
  ◌≡◌, refl, String, true, false, List, [], ◌∷◌, ◌++◌, ◌===◌, not, inl, inr, Bool-cases,
  Option-cases, member, keep, arith, eq_iff, eq_refl, IsDistinct, ◌∙◌, ap,
}
use audit_guard.Prelude.Map
use audit_guard.Orchestrator.Closing.{
  Job, State, store, job_or_new, ensure_job, Begun, already, joins, runs, started, begin_close,
  end_close,
}

-- A state and the keys of the runs under way, the newest first.
abbrev pub Running : Type 0
Running = State × List String

unfoldable pub note_begun : String → Begun × State → List String → Running
note_begun key (runs, s) ks = (s, key ∷ ks)
note_begun key (joins, s) ks = (s, ks)
note_begun key (already, s) ks = (s, ks)

-- One step: a call begins, a run stores a job, or a run ends.
pub data Moves : Running → Running → Type 0 where
  begins :
      (key : String) (s : State) (ks : List String)
      → Moves (s, ks) (note_begun key (begin_close true key s) ks)
  stores :
      (key : String) (job : Job) (s : State) (ks : List String)
      → Moves (s, ks) (store key job s, ks)
  ends :
      (key : String) (s : State) (front back : List String)
      → Moves (s, front ++ key ∷ back) (end_close true key s, front ++ back)

-- What calls can lead to from a state in which no run is under way.
pub data Reached : Running → Type 0 where
  start : (s : State) → s.inflight ≡ [] → Reached (s, [])
  move : (r t : Running) → Reached r → Moves r t → Reached t

-- The runs under way are those of `inflightCloseJobs`, and no key has two.
abbrev pub IsSingle : Running → Type 0
IsSingle (s, ks) = (s.inflight ≡ ks) × IsDistinct ks

without : String → List String → List String
without key = keep (λ k. not (k === key))

without-absent : (key : String) (ks : List String) → member key ks ≡ false → without key ks ≡ ks
unfolding without
without-absent key [] h = refl
without-absent key (k ∷ ks) h = ground (arith, without-absent key ks)

member-middle :
    (x key : String) (front back : List String)
    → member x (front ++ key ∷ back) ≡ false
    → (member x (front ++ back) ≡ false) × ((key === x) ≡ false)
member-middle x key [] back h = ground arith
member-middle x key (f ∷ front) back h = ground (arith, member-middle x key front back)

-- Without the key, a list of distinct keys has lost just that one, and its keys stay distinct.
without-middle :
    (key : String) (front back : List String)
    → IsDistinct (front ++ key ∷ back)
    → (without key (front ++ key ∷ back) ≡ front ++ back) × IsDistinct (front ++ back)
unfolding without
without-middle key [] back h = (ground (arith, eq_refl key, without-absent key back h.0), h.1)
without-middle key (f ∷ front) back h =
    let m = member-middle f key front back h.0 in
    let ih = without-middle key front back h.1 in
    (ground (arith, eq_iff f key, eq_iff key f, m.1, ih.0), (m.0, ih.1))

ensure_job-inflight :
    (key : String) (s : State) → (ensure_job key (Map.get key s.jobs) s).inflight ≡ s.inflight
ensure_job-inflight key s = elim (Option-cases (Map.get key s.jobs)) [
  | inl absent ↦ rw absent (unfold ensure_job in refl)
  | inr (job, there) ↦ rw there (unfold ensure_job in refl)
]

begins-IsSingle :
    (key : String) (s : State) (ks : List String)
    → IsSingle (s, ks)
    → IsSingle (note_begun key (begin_close true key s) ks)
unfolding begin_close note_begun started
begins-IsSingle key s ks (same, distinct) =
    let kept = ensure_job-inflight key s in
    elim (Bool-cases (job_or_new (Map.get key s.jobs)).cancelled_on_chain) [
      | inl done ↦ simp done (kept ∙ same, distinct)
      | inr live ↦ elim (Bool-cases (member key s.inflight)) [
        | inl on ↦ simp (live, on) (kept ∙ same, distinct)
        | inr off ↦ simp (live, off) (ap (λ l. key ∷ l) (kept ∙ same), (rw same at off, distinct))
      ]
    ]

Moves-IsSingle : (r t : Running) → Moves r t → IsSingle r → IsSingle t
Moves-IsSingle _ _ (begins key s ks) h = begins-IsSingle key s ks h
Moves-IsSingle _ _ (stores key job s ks) h = unfold store in h
Moves-IsSingle _ _ (ends key s front back) (same, distinct) =
    let (gone, rest) = without-middle key front back distinct in
    (unfold end_close without in rw same gone, rest)

-- Where the single flight is on, as it is unless it is turned off, and however calls and runs interleave
-- from a state in which no run is under way, no job is being closed by two runs together, and
-- `inflightCloseJobs` holds just the jobs whose runs have not ended.
pub reached-IsSingle : (r : Running) → Reached r → IsSingle r
reached-IsSingle _ (start s none_yet) = (none_yet, tt)
reached-IsSingle _ (move r t before step) = Moves-IsSingle r t step (reached-IsSingle r before)
