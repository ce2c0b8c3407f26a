-- ===== src/Services/FuzzQueue.antt =====
-- packages/fuzzer-service/src/queue.js. The runners and the shell are the `Env` of the model.
use audit_guard.Prelude.{
  ℕ, String, refl, Bool, Option, none, some, List, [], ◌∷◌, ◌||◌, ◌===◌, ◌or_else◌,
}
use audit_guard.Prelude.Map
use audit_guard.Services.Tools.{Finding, Tool, run_tools, tool_used}
use audit_guard.Services.Worker
use audit_guard.Services.Worker.{Status, queued, running, done, Service, Queue}

pub record FuzzJob (P : Type 0) : Type 0 where
  pub id : String
  pub contract_address : String
  pub chain_fork_url : Option String
  pub chain_id : String
  pub budget_seconds : ℕ
  pub tool : String
  pub status : Status
  pub findings : List (Finding P)
  pub enqueued_at : ℕ
  pub started_at : Option ℕ
  pub finished_at : Option ℕ
  pub error : Option String
  pub tool_used : Option String

pub record Request : Type 0 where
  pub contract_address : String
  pub chain_fork_url : Option String
  pub chain_id : Option String
  pub budget_seconds : Option ℕ
  pub tool : Option String

-- What the service calls: `none` is an exception.
pub record Env (P : Type 0) : Type 0 where
  pub command : String → Bool
  pub docker_image : String → Bool
  pub ityfuzz : FuzzJob P → Option (List (Finding P))
  pub mythril : FuzzJob P → Option (List (Finding P))
  pub manticore : FuzzJob P → Option (List (Finding P))
  pub heimdall : FuzzJob P → Option (List (Finding P))

module _ {P : Type 0} where
  unfoldable pub new_job : String → ℕ → Request → FuzzJob P
  new_job id now opts = record {
    id = id;
    contract_address = opts.contract_address;
    chain_fork_url = opts.chain_fork_url;
    chain_id = opts.chain_id or_else "296";
    budget_seconds = opts.budget_seconds or_else 120;
    tool = opts.tool or_else "auto";
    status = queued;
    findings = [];
    enqueued_at = now;
    started_at = none;
    finished_at = none;
    error = none;
    tool_used = none;
  }

  unfoldable pub enqueue : String → ℕ → Request → Queue (FuzzJob P) → Queue (FuzzJob P)
  unfolding new_job
  enqueue id now opts q = Worker.submit id (new_job id now opts) q

  unfoldable pub get : String → Queue (FuzzJob P) → Option (FuzzJob P)
  get id q = Map.get id q.jobs

module _ {P : Type 0} (env : Env P) where
  unfoldable pub tool_checks : FuzzJob P → List (Tool (FuzzJob P) P)
  tool_checks job =
      record {
        name = "ityfuzz";
        enabled = job.tool === "ityfuzz" || job.tool === "auto";
        available = some (env.command "ityfuzz" || env.docker_image "fuzzland/ityfuzz");
        run = env.ityfuzz;
      }
      ∷ record {
        name = "mythril";
        enabled = job.tool === "mythril" || job.tool === "auto";
        available = some (env.command "myth" || env.docker_image "mythril/myth");
        run = env.mythril;
      }
      ∷ record {
        name = "manticore";
        enabled = job.tool === "manticore" || job.tool === "auto";
        available = some (env.command "manticore" || env.docker_image "trailofbits/manticore");
        run = env.manticore;
      }
      ∷ record {
        name = "heimdall";
        enabled = job.tool === "heimdall" || job.tool === "auto";
        available =
            some (env.command "heimdall" || env.docker_image "ghcr.io/jon-becker/heimdall-rs");
        run = env.heimdall;
      }
      ∷ []

  unfoldable pub begin : ℕ → FuzzJob P → FuzzJob P
  begin now job = record job { status = running; started_at = some now }

  -- No statement of the `try` block throws, so its `catch` is never entered.
  unfoldable pub finish : ℕ → FuzzJob P → FuzzJob P
  finish now job =
      let c = run_tools job (tool_checks job) in
      record job {
        findings = c.findings;
        tool_used = some (tool_used c.tools_used);
        status = done;
        finished_at = some now;
      }

  unfoldable pub service : Service (FuzzJob P)
  unfolding begin finish
  service = record {
    status = λ j. j.status;
    begin = begin;
    finish = finish;
    status-begin = λ n j. refl;
    status-finish = λ n j. refl;
  }
