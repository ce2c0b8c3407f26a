-- ===== src/Services.antt =====
-- The two analysis services: static analysis (packages/static-analysis-service) and fuzzing
-- (packages/fuzzer-service). Each runs its jobs one at a time and merges its tools' findings.
pub mod Tools
pub mod Worker
pub mod StaticQueue
pub mod FuzzQueue
pub mod Merge
pub mod Schedule
pub mod Rounds
pub mod Finished
mod Examples
