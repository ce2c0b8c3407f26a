-- ===== src/Services/StaticQueue.antt =====
-- packages/static-analysis-service/src/queue.js. The runners, the shell and the download from
-- Sourcify are the `Env` of the model.
use audit_guard.Prelude.{
  ℕ, String, refl, Bool, Option, none, some, List, [], ◌∷◌, ◌||◌, ◌===◌, truthy, ◌or_else◌,
}
use audit_guard.Prelude.Map
use audit_guard.Services.Tools.{Finding, Tool, run_tools, tool_used}
use audit_guard.Services.Worker
use audit_guard.Services.Worker.{Status, queued, running, done, Service, Queue}

pub record StaticJob (P : Type 0) : Type 0 where
  pub id : String
  pub contract_address : String
  pub source_dir : Option String
  pub chain_fork_url : Option String
  pub budget_seconds : ℕ
  pub tool : String
  pub status : Status
  pub findings : List (Finding P)
  pub enqueued_at : ℕ
  pub started_at : Option ℕ
  pub finished_at : Option ℕ
  pub error : Option String
  pub tool_used : Option String

pub record Request : Type 0 where
  pub contract_address : String
  pub source_dir : Option String
  pub chain_fork_url : Option String
  pub budget_seconds : Option ℕ
  pub tool : Option String

-- What the service calls: `none` is an exception, and of `fetch_source` `some none` is null.
pub record Env (P : Type 0) : Type 0 where
  pub command : String → Bool
  pub docker_image : String → Bool
  pub fetch_source : String → Option (Option String)
  pub slither : StaticJob P → Option (List (Finding P))
  pub aderyn : StaticJob P → Option (List (Finding P))
  pub semgrep : StaticJob P → Option (List (Finding P))

module _ {P : Type 0} where
  unfoldable pub new_job : String → ℕ → Request → StaticJob P
  new_job id now opts = record {
    id = id;
    contract_address = opts.contract_address;
    source_dir = opts.source_dir;
    chain_fork_url = opts.chain_fork_url;
    budget_seconds = opts.budget_seconds or_else 120;
    tool = opts.tool or_else "auto";
    status = queued;
    findings = [];
    enqueued_at = now;
    started_at = none;
    finished_at = none;
    error = none;
    tool_used = none;
  }

  unfoldable pub enqueue : String → ℕ → Request → Queue (StaticJob P) → Queue (StaticJob P)
  unfolding new_job
  enqueue id now opts q = Worker.submit id (new_job id now opts) q

  unfoldable pub get : String → Queue (StaticJob P) → Option (StaticJob P)
  get id q = Map.get id q.jobs

module _ {P : Type 0} (env : Env P) where
  unfoldable pub tool_checks : StaticJob P → List (Tool (StaticJob P) P)
  tool_checks job =
      record {
        name = "slither";
        enabled = job.tool === "slither" || job.tool === "auto";
        available =
            some (env.command "slither" || env.docker_image "trailofbits/eth-security-toolbox");
        run = env.slither;
      }
      ∷ record {
        name = "aderyn";
        enabled = job.tool === "aderyn" || job.tool === "auto";
        available = some (env.command "aderyn");
        run = env.aderyn;
      }
      ∷ record {
        name = "semgrep";
        enabled = job.tool === "semgrep" || job.tool === "auto";
        available = some (env.command "semgrep");
        run = env.semgrep;
      }
      ∷ []

  unfoldable pub begin : ℕ → StaticJob P → StaticJob P
  begin now job = record job { status = running; started_at = some now }

  -- The directory of sources, downloaded where the job brings none.
  unfoldable pub with_source : Option String → StaticJob P → StaticJob P
  with_source (some dir) job = job
  with_source none job = elim (env.fetch_source job.contract_address) [
    | none ↦ job
    | some fetched ↦ elim (truthy fetched) [
      | none ↦ job
      | some dir ↦ record job { source_dir = some dir }
    ]
  ]

  -- No statement of the `try` block throws, so its `catch` is never entered.
  unfoldable pub complete : ℕ → StaticJob P → StaticJob P
  complete now job =
      let c = run_tools job (tool_checks job) in
      record job {
        findings = c.findings;
        tool_used = some (tool_used c.tools_used);
        status = done;
        finished_at = some now;
      }

  unfoldable pub finish : ℕ → StaticJob P → StaticJob P
  finish now job = complete now (with_source (truthy job.source_dir) job)

  unfoldable pub service : Service (StaticJob P)
  unfolding begin finish complete
  service = record {
    status = λ j. j.status;
    begin = begin;
    finish = finish;
    status-begin = λ n j. refl;
    status-finish = λ n j. refl;
  }
