-- ===== src/Orchestrator/Rearm.antt =====
-- `bootstrapWinnerSelectionFromActiveJobs` of orchestrator/src/orchestrator.js: at the start, the
-- selection of each open job is scheduled again. A job's fields stand in two maps, those that the timers
-- use in the state of `Readiness`, the others in `details`. Ids are keys already, and left out are the
-- empty lists of findings and bidders of a job that is new. The client has both calls.
use audit_guard.Prelude.{
  ℕ, suc, ◌+◌, ◌/◌, String, Bool, true, false, Option, none, some, List, [], ◌∷◌, leb, ◌==◌,
  if◌then◌else◌, ◌or_else◌, map,
}
use audit_guard.Prelude.Map
use audit_guard.Prelude.Map.{Map}
use audit_guard.Orchestrator.Address.{normalize_address}
use audit_guard.Orchestrator.Hydration.{ChainJob, some_text, type_or_unknown}
use audit_guard.Orchestrator.Readiness.{Timer, Job, Timing, schedule}
use audit_guard.Orchestrator.Readiness
pub mod Timers
pub mod Rearmed
mod Examples

-- `none` is a field that the job has not.
pub record Details : Type 0 where
  pub winners : Option (List String)
  pub report_published : Option Bool
  pub settled : Option Bool
  pub rehydrated_for_selection : Option Bool
  pub contract_address : Option String
  pub contract_type : Option String

pub record State : Type 0 where
  pub tracked : Readiness.State
  pub details : Map Details

pub record Pass : Type 0 where
  pub state : State
  pub scheduled : ℕ
  pub skipped_expired : ℕ

pub record Config : Type 0 where
  pub enabled : Bool
  pub max_jobs : ℕ
  pub timing : Timing
  pub is_address : String → Bool

-- What the chain answers, `none` where it throws, and the clock when a job is scheduled.
pub record World : Type 0 where
  pub active_jobs : Option (List String)
  pub chain_job : String → Option (Option ChainJob)
  pub now_ms : ℕ
  pub clock_ms : String → ℕ

pub data Verdict : Type 0 where
  leave expired : Verdict
  arm : ChainJob → ℕ → Verdict

unfoldable pub judge_deadline : ℕ → ChainJob → Option ℕ → Verdict
judge_deadline now_sec chain none = leave
judge_deadline now_sec chain (some d) =
    if d == 0 then leave else if leb d now_sec then expired else arm chain d

unfoldable pub judge_status : ℕ → ChainJob → Option ℕ → Verdict
unfolding judge_deadline
judge_status now_sec chain none = leave
judge_status now_sec chain (some n) =
    if n == 0 then judge_deadline now_sec chain chain.auction_deadline else leave

unfoldable pub judge : ℕ → Option (Option ChainJob) → Verdict
unfolding judge_status
judge now_sec none = leave
judge now_sec (some none) = leave
judge now_sec (some (some chain)) = judge_status now_sec chain chain.status

abbrev pub no_details : Details
no_details = record {
  winners = none;
  report_published = none;
  settled = none;
  rehydrated_for_selection = none;
  contract_address = none;
  contract_type = none;
}

abbrev pub no_job : Job
no_job = record {
  auction_deadline_sec = none;
  bid_finality_grace_ms = none;
  winner_selection_scheduled_at = none;
}

-- `a ?? b` where `b` may be null too.
unfoldable pub first_text : Option String → Option String → Option String
first_text none b = b
first_text (some a) b = some a

module _ (config : Config) (world : World) where
  -- What the job has stays, but for a missing address or type.
  unfoldable pub merge_details : ChainJob → Details → Details
  unfolding first_text some_text type_or_unknown
  merge_details chain old = record {
    winners = some (old.winners or_else []);
    report_published = some (old.report_published or_else false);
    settled = some (old.settled or_else false);
    rehydrated_for_selection = some (old.rehydrated_for_selection or_else true);
    contract_address =
        first_text old.contract_address
          (some_text (normalize_address config.is_address chain.contract_address));
    contract_type = some (old.contract_type or_else type_or_unknown chain.contract_type);
  }

  unfoldable pub restore_job : String → ChainJob → ℕ → State → State
  unfolding merge_details
  restore_job key chain d s =
      let old = Map.get key s.tracked.jobs or_else no_job in
      record {
        tracked = record s.tracked {
          jobs = Map.set key (record old { auction_deadline_sec = some d }) s.tracked.jobs;
        };
        details =
            Map.set key (merge_details chain (Map.get key s.details or_else no_details)) s.details;
      }

  unfoldable pub arm_job : String → ChainJob → ℕ → State → State
  unfolding restore_job
  arm_job key chain d s =
      let restored = restore_job key chain d s in
      record restored {
        tracked =
            schedule config.timing (world.clock_ms key) key (some d) "startup_rearm"
              restored.tracked;
      }

  unfoldable pub follow : String → Verdict → Pass → Pass
  unfolding arm_job
  follow key leave p = p
  follow key expired p = record p { skipped_expired = suc p.skipped_expired }
  follow key (arm chain d) p = record p {
    state = arm_job key chain d p.state;
    scheduled = suc p.scheduled;
  }

  unfoldable pub visit_all : List String → Pass → Pass
  unfolding follow judge
  visit_all [] p = p
  visit_all (key ∷ keys) p =
      let next =
        visit_all keys (follow key (judge (world.now_ms / 1000) (world.chain_job key)) p) in
      if leb config.max_jobs p.scheduled then p else next

  unfoldable pub ids_of : Option (List String) → State → List String
  ids_of none s = map (λ entry. entry.0) s.tracked.jobs
  ids_of (some ids) s = ids

  unfoldable pub bootstrap : State → Pass
  unfolding visit_all ids_of
  bootstrap s =
      let p : Pass = record { state = s; scheduled = 0; skipped_expired = 0 } in
      if config.enabled then visit_all (ids_of world.active_jobs s) p else p
