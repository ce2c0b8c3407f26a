-- ===== src/Orchestrator/Creation/Examples.antt =====
-- The creation of a job whose first transaction is refused for its nonce.
use audit_guard.Orchestrator.Errors.{is_retriable}
use audit_guard.Prelude.{lower, ℕ, zero, suc, ◌≤◌, ◌<◌, ◌≡◌, refl, true, none, some, [], ◌∷◌, arith}
use audit_guard.Orchestrator.Creation.{
  try_create, Config, World, other, job_posted, gives, throws, mined, Created, create_audit_job,
}
use audit_guard.Orchestrator.Creation.Retries.{IsWithin, create_audit_job-IsWithin}
use audit_guard.Orchestrator.Creation.Resolved.{
  try_of, IsMinedIn, FailsAt, create_audit_job-IsMined, create_audit_job-gives,
}

abbrev config : Config
config = record {
  max_attempts = 3;
  backoff_ms = 500;
  max_backoff_ms = 10000;
  winner_wait_ms = 60000;
  strict_live = true;
}

abbrev works : World
works = record {
  top_up_error = none;
  next_job_id = gives (some 4);
  tx_hash = gives (some "0xab");
  receipt = gives (mined (other ∷ job_posted (some 5) none ∷ []));
  next_job_id_after = gives (some 6);
  chain_deadline = throws "busy";
  now_sec = 1000;
}

abbrev refuses : World
refuses = record works { tx_hash = throws "nonce too low" }

abbrev world : ℕ → World
world (suc zero) = refuses
world _ = works

abbrev job : Created
job = record { job_id = 5; auction_deadline_sec = 1060; create_tx_hash = some "0xab" }

made : (create_audit_job config true world).result ≡ gives job
unfolding create_audit_job is_retriable lower
made = refl

create_audit_job-IsWithin_example : IsWithin config 3 2 (create_audit_job config true world).steps
create_audit_job-IsWithin_example = create_audit_job-IsWithin config true world

create_audit_job-IsMined_example : IsMinedIn config world job
create_audit_job-IsMined_example = create_audit_job-IsMined config true world job made

first_fails : (i : ℕ) → 1 ≤ i → i < 2 → FailsAt config (world i)
unfolding try_create is_retriable lower
first_fails zero lo hi = absurd (omega arith)
first_fails (suc zero) lo hi = ("nonce too low", refl, refl)
first_fails (suc (suc n)) lo hi = absurd (omega arith)

second_works : (try_of config (world 2)).result ≡ gives job
unfolding try_create
second_works = refl

create_audit_job-gives_example : (create_audit_job config true world).result ≡ gives job
create_audit_job-gives_example =
    create_audit_job-gives config world 2 job (omega arith) (omega arith) first_fails second_works
