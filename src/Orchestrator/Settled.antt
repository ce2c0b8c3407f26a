-- ===== src/Orchestrator/Settled.antt =====
-- A job is settled once (`settleAll` of orchestrator/src/orchestrator.js).
use audit_guard.Prelude.{String, ◌≡◌, refl, Bool, true, Option, Bool-cases, inl, inr, length, ◌==◌}
use audit_guard.Orchestrator.Roster.{Roster}
use audit_guard.Orchestrator.Settlement.{Config}
use audit_guard.Orchestrator.Payout.{Chain, Job, skipped, settle_all}

settle_all-settled :
    (is_address : String → Bool) (config : Config) (orchestrator : String)
    → (roster : Roster) (chain : Chain) (job : Job) (report_agent : Option String)
    → job.settled ≡ true
    → settle_all is_address config orchestrator roster chain job report_agent ≡ skipped job
unfolding settle_all
settle_all-settled is_address config orchestrator roster chain job report_agent e =
    elim (Bool-cases (length job.findings == 0)) [
      | inl none_found ↦ simp none_found refl
      | inr found ↦ simp found (simp e refl)
    ]

-- After a settlement that marks its job settled, another one of that job, whatever the chain, the
-- roster and the report agent are then, sends nothing and leaves the job as it is.
pub settle_all_twice :
    (is_address : String → Bool) (config : Config) (orchestrator : String)
    → (roster later_roster : Roster) (chain later_chain : Chain) (job : Job)
    → (report_agent later_agent : Option String)
    → (settle_all is_address config orchestrator roster chain job report_agent).job.settled ≡ true
    → settle_all is_address config orchestrator later_roster later_chain
        (settle_all is_address config orchestrator roster chain job report_agent).job
        later_agent
      ≡ skipped (settle_all is_address config orchestrator roster chain job report_agent).job
settle_all_twice is_address config orchestrator roster later_roster chain later_chain job a b e =
    settle_all-settled is_address config orchestrator later_roster later_chain _ b e
