-- ===== src/Services/Examples.antt =====
-- The theorems on the tool services, at concrete jobs and queues.
use audit_guard.Prelude.{
  ℕ, String, ◌≡◌, refl, true, false, none, some, List, [], ◌∷◌, if◌then◌else◌,
}
use audit_guard.Prelude.Map
use audit_guard.Services.Tools.{Finding, Tool, run_tools}
use audit_guard.Services.Worker
use audit_guard.Services.Worker.{Queue, empty, done, running}
use audit_guard.Services.StaticQueue
use audit_guard.Services.StaticQueue.{StaticJob}
use audit_guard.Services.FuzzQueue
use audit_guard.Services.FuzzQueue.{FuzzJob}
use audit_guard.Services.Merge.{Distinct, run_tools-Distinct}
use audit_guard.Services.Schedule.{
  waits, status_of, Scheduled, Reach, here, next, submitted, Reach-Scheduled,
}
use audit_guard.Services.Rounds.{rounds, rounds_lem}

abbrev reentrancy : Finding ℕ
reentrancy = record { title = "reentrancy"; body = 1 }

abbrev tools : List (Tool ℕ ℕ)
tools =
    record {
      name = "slither";
      enabled = true;
      available = some true;
      run = λ job. some (reentrancy ∷ record { title = "overflow"; body = job } ∷ []);
    }
    ∷ record { name = "aderyn"; enabled = true; available = some true; run = λ job. none }
    ∷ record {
      name = "semgrep";
      enabled = true;
      available = some true;
      run = λ job. some (reentrancy ∷ []);
    }
    ∷ []

abbrev env : StaticQueue.Env ℕ
env = record {
  command = λ s. true;
  docker_image = λ s. false;
  fetch_source = λ s. none;
  slither = λ job. some [];
  aderyn = λ job. none;
  semgrep = λ job. some [];
}

abbrev request : StaticQueue.Request
request = record {
  contract_address = "0xabc";
  source_dir = none;
  chain_fork_url = none;
  budget_seconds = none;
  tool = none;
}

abbrev job : StaticJob ℕ
job = StaticQueue.new_job "s1" 5 request

abbrev one_job : Queue (StaticJob ℕ)
one_job = Worker.submit "s1" job empty

one_job-Reach : Reach (StaticQueue.service env) one_job
unfolding StaticQueue.new_job StaticQueue.service Map.get
one_job-Reach = next here (submitted "s1" job refl refl)

run_tools-Distinct_example : Distinct (run_tools 4 tools).findings
run_tools-Distinct_example = run_tools-Distinct 4 tools

Reach-Scheduled_example : Scheduled (StaticQueue.service env) one_job
Reach-Scheduled_example = Reach-Scheduled (StaticQueue.service env) one_job-Reach

rounds_lem_example :
    let r = rounds (StaticQueue.service env) ((6, 7) ∷ []) one_job in
    (r.waiting ≡ [])
    × (r.current ≡ none)
    × ((j : String)
        → status_of (StaticQueue.service env) r j ≡ (
            if waits j one_job.waiting
            then some done
            else status_of (StaticQueue.service env) one_job j))
unfolding Worker.submit
rounds_lem_example =
    rounds_lem (StaticQueue.service env) ((6, 7) ∷ []) one_job
      (Reach-Scheduled (StaticQueue.service env) one_job-Reach) refl refl

abbrev fuzz_env : FuzzQueue.Env ℕ
fuzz_env = record {
  command = λ s. true;
  docker_image = λ s. false;
  ityfuzz = λ job. some (reentrancy ∷ []);
  mythril = λ job. some (record { title = "overflow"; body = 3 } ∷ []);
  manticore = λ job. none;
  heimdall = λ job. some [];
}

abbrev fuzz_job : FuzzJob ℕ
fuzz_job = record {
  id = "f1";
  contract_address = "0xabc";
  chain_fork_url = none;
  chain_id = "296";
  budget_seconds = 120;
  tool = "mythril";
  status = running;
  findings = [];
  enqueued_at = 1;
  started_at = some 2;
  finished_at = none;
  error = none;
  tool_used = none;
}
