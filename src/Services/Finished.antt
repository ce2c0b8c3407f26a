-- ===== src/Services/Finished.antt =====
-- What a finished job holds (packages/static-analysis-service/src/queue.js,
-- packages/fuzzer-service/src/queue.js).
use audit_guard.Prelude.{ℕ, String, ◌≡◌, refl, some, [], any, ◌||◌, ◌&&◌, ◌or_else◌, truthy, arith}
use audit_guard.Services.Tools.{has_title, tool_used}
use audit_guard.Services.Worker.{done}
use audit_guard.Services.Merge.{
  Distinct, ran, run_tools-Distinct, any-run_tools, tools_used-run_tools,
}
use audit_guard.Services.StaticQueue
use audit_guard.Services.StaticQueue.{StaticJob}
use audit_guard.Services.FuzzQueue
use audit_guard.Services.FuzzQueue.{FuzzJob}

module _ {P : Type 0} where
  -- A static analysis job ends as done at the time given, with findings of distinct titles, and with
  -- the name of every tool that ran; the tools run on the sources that were found for it.
  pub static_finish_lem :
      (env : StaticQueue.Env P) (now : ℕ) (job : StaticJob P)
      → let sourced = StaticQueue.with_source env (truthy job.source_dir) job in
        let ended = StaticQueue.finish env now job in
        (ended.status ≡ done)
        × (ended.finished_at ≡ some now)
        × Distinct ended.findings
        × (ended.tool_used ≡ some (tool_used (ran sourced (StaticQueue.tool_checks env sourced))))
  unfolding StaticQueue.finish StaticQueue.complete
  static_finish_lem env now job =
      let sourced = StaticQueue.with_source env (truthy job.source_dir) job in
      let tools = StaticQueue.tool_checks env sourced in
      (refl, refl, run_tools-Distinct sourced tools, rw (tools_used-run_tools sourced tools) refl)

  -- A fuzzing job that asks for mythril has exactly the titles that mythril reports, if mythril is
  -- installed or its image is there; no other tool adds a finding.
  pub fuzz_mythril_lem :
      (env : FuzzQueue.Env P) (now : ℕ) (job : FuzzJob P) (t : String)
      → job.tool ≡ "mythril"
      → any (has_title t) (FuzzQueue.finish env now job).findings ≡ (
          (env.command "myth" || env.docker_image "mythril/myth")
          && any (has_title t) (env.mythril job or_else []))
  unfolding FuzzQueue.finish FuzzQueue.tool_checks
  fuzz_mythril_lem env now job t e =
      rw (any-run_tools job t (FuzzQueue.tool_checks env job)) (simp e (ground arith))
