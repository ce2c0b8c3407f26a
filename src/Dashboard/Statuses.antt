-- ===== src/Dashboard/Statuses.antt =====
-- The lists of bid statuses, and the terminal status of a job.
use audit_guard.Prelude.{
  String, ◌≡◌, refl, true, Option, none, some, [], ◌∷◌, arith, take, any, truthy, same_text_refl,
  ◌===◌, eq_iff, Bool-cases, inl, inr, ◌or_else◌, if◌then◌else◌,
}
use mathlib.Core.Option
use audit_guard.Prelude.Map
use audit_guard.Prelude.Map.{Map, get-set, get-set_self, has}
use audit_guard.Dashboard.State.{Job, BidStatus, Terminal, State}
use audit_guard.Dashboard.Auctions.{
  push_status, add_job_bid_status, push_status_by, same_status, set_job_terminal, end_job,
  end_known,
}

module _ {P : Type 0} where
  status_again :
      (k : String) (b : BidStatus P) (s : State P) (id : String)
      → truthy b.event_id ≡ some id
      → any (same_status b) (Map.get k s.job_bid_status or_else []) ≡ true
      → add_job_bid_status k b s ≡ s
  unfolding add_job_bid_status
  status_again k b s id q known = rw (q, push_status_by, known)

  same_status_refl : (b : BidStatus P) → same_status b b ≡ true
  unfolding same_status
  same_status_refl b =
      rw (same_text_refl b.event_id, same_text_refl b.status, same_text_refl b.agent_id)

  pushed :
      (k : String) (b : BidStatus P) (s : State P)
      → let existing = Map.get k s.job_bid_status or_else [] in
        any (same_status b) (Map.get k (push_status k b existing s).job_bid_status or_else [])
        ≡ true
  unfolding push_status
  pushed k b s =
      let existing = Map.get k s.job_bid_status or_else [] in
      rw (get-set_self k (take 100 (b ∷ existing)) s.job_bid_status)
        (ground (arith, same_status_refl b))

  status_added :
      (o : Option String) (k : String) (b : BidStatus P) (s : State P)
      → let existing = Map.get k s.job_bid_status or_else [] in
        any (same_status b) (Map.get k (push_status_by o k b existing s).job_bid_status or_else [])
        ≡ true
  unfolding push_status_by push_status
  status_added none k b s = pushed k b s
  status_added (some id) k b s =
      elim (Bool-cases (any (same_status b) (Map.get k s.job_bid_status or_else []))) [
        | inl there ↦ rw there there
        | inr new ↦ rw new (pushed k b s)
      ]

  -- A bid status that carries an event identifier and is added twice is kept once: the second
  -- addition leaves the whole state as it was.
  pub add_job_bid_status_twice :
      (k : String) (b : BidStatus P) (s : State P) (id : String)
      → truthy b.event_id ≡ some id
      → add_job_bid_status k b (add_job_bid_status k b s) ≡ add_job_bid_status k b s
  add_job_bid_status_twice k b s id q =
      status_again k b (add_job_bid_status k b s) id q
        (unfold add_job_bid_status in status_added (truthy b.event_id) k b s)

  get-end_known :
      (k j : String) (t : Terminal) (o : Option (Job P)) (m : Map (Job P))
      → Map.get k m ≡ o
      → Map.get j (end_known k t o m) ≡ (if k === j then Option.map (end_job t) o else Map.get j m)
  unfolding end_known
  get-end_known k j t none m q = ground (arith, eq_iff k j)
  get-end_known k j t (some job) m q = get-set k j (end_job t job) m

  -- A terminal status is kept under its job. Of the active jobs it ends the named one, if the store
  -- tracks it, and it adds, removes and changes no other.
  pub set_job_terminal_lem :
      (k j : String) (t : Terminal) (s : State P)
      → let u = set_job_terminal k t s in
        (Map.get j u.job_terminal ≡ (if k === j then some t else Map.get j s.job_terminal))
        × (Map.get j u.active_jobs ≡ (
            if k === j
            then Option.map (end_job t) (Map.get k s.active_jobs)
            else Map.get j s.active_jobs))
  unfolding set_job_terminal
  set_job_terminal_lem k j t s = (
    get-set k j t s.job_terminal,
    get-end_known k j t (Map.get k s.active_jobs) s.active_jobs refl,
  )
