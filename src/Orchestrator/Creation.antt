-- ===== src/Orchestrator/Creation.antt =====
-- The creation of an audit job by `handleDiscovery` of orchestrator/src/orchestrator.js, from the
-- retry loop under the lock to the report of a failure. What the chain answers in each attempt is an
-- argument (an error by its message), and what the code calls is a list of steps, in order.
use Prim.Native.String.{◌++◌ as append}
use audit_guard.Prelude.{
  ℕ, zero, suc, ◌+◌, ◌-◌, ◌*◌, ◌/◌, ◌^◌, String, Bool, true, false, Option, none, some, List, [],
  ◌∷◌, ◌++◌, ltb, leb, ◌==◌, ◌||◌, not, if◌then◌else◌, ◌or_else◌, min, max,
}
use audit_guard.Orchestrator.Errors.{is_insufficient_funds, is_retriable}
pub mod Retries
pub mod Resolved
mod Examples

-- The settings, with `Math.max(1, …)` not yet applied.
pub record Config : Type 0 where
  pub max_attempts : ℕ
  pub backoff_ms : ℕ
  pub max_backoff_ms : ℕ
  pub winner_wait_ms : ℕ
  pub strict_live : Bool

-- A log of the receipt: one that does not parse, another event, or `JobPosted` with the id and the
-- deadline if they are finite numbers.
pub data Log : Type 0 where
  unparsed other : Log
  job_posted : Option ℕ → Option ℕ → Log

-- A call gives a value or throws.
pub data Answer (A : Type 0) : Type 0 where
  gives : A → Answer A
  throws : String → Answer A

-- `tx.wait()`: no receipt or one whose status is not 1, or a receipt with its logs.
pub data Receipt : Type 0 where
  reverted : Receipt
  mined : List Log → Receipt

pub record World : Type 0 where
  pub top_up_error : Option String
  pub next_job_id : Answer (Option ℕ)
  pub tx_hash : Answer (Option String)
  pub receipt : Answer Receipt
  pub next_job_id_after : Answer (Option ℕ)
  pub chain_deadline : Answer (Option ℕ)
  pub now_sec : ℕ

pub record Created : Type 0 where
  pub job_id : ℕ
  pub auction_deadline_sec : ℕ
  pub create_tx_hash : Option String

pub data Step : Type 0 where
  top_up create retry_top_up create_deferred create_retrying : Step
  wait : ℕ → Step
  tx_failed create_aborted job_failed : String → Step

-- The message of the error for a transaction that failed.
abbrev pub reverted_message : Option String → String
reverted_message hash = append "createAuditJob tx failed: " (hash or_else "undefined")

-- The first `JobPosted` of the logs.
unfoldable pub first_posted : List Log → Option (Option ℕ × Option ℕ)
first_posted [] = none
first_posted (unparsed ∷ logs) = first_posted logs
first_posted (other ∷ logs) = first_posted logs
first_posted (job_posted id deadline ∷ logs) = some (id, deadline)

unfoldable pub or_first : Option ℕ → Option ℕ → Option ℕ
or_first none b = b
or_first (some a) b = some a

unfoldable pub if_positive : Option ℕ → Option ℕ
if_positive none = none
if_positive (some n) = if ltb 0 n then some n else none

unfoldable pub value_of : Answer (Option ℕ) → Option ℕ
value_of (gives o) = o
value_of (throws e) = none

unfoldable pub before_next : Option ℕ → Option ℕ
before_next none = none
before_next (some n) = if ltb 0 n then some (n - 1) else none

unfoldable pub posted_id : Option (Option ℕ × Option ℕ) → Option ℕ
posted_id none = none
posted_id (some (id, deadline)) = id

unfoldable pub posted_deadline : Option (Option ℕ × Option ℕ) → Option ℕ
unfolding if_positive
posted_deadline none = none
posted_deadline (some (id, deadline)) = if_positive deadline

-- The id from the log, else the one that was expected, else the one before the next.
unfoldable pub resolve_id : Option ℕ → List Log → Answer (Option ℕ) → Option ℕ
unfolding first_posted posted_id or_first value_of before_next
resolve_id expected logs after =
    or_first (or_first (posted_id (first_posted logs)) expected) (before_next (value_of after))

-- `Math.ceil(ms / 1000)`
unfoldable pub ceil_sec : ℕ → ℕ
ceil_sec ms = (ms + 999) / 1000

-- The deadline from the log, else from the chain, else from the clock.
unfoldable pub resolve_deadline : Config → World → List Log → ℕ
unfolding first_posted posted_deadline or_first if_positive value_of ceil_sec
resolve_deadline config w logs =
    or_first (posted_deadline (first_posted logs)) (if_positive (value_of w.chain_deadline))
    or_else (w.now_sec + max 1 (ceil_sec config.winner_wait_ms))

-- A run of the `try` block: its steps, and the job or the error.
pub record Tried : Type 0 where
  pub steps : List Step
  pub result : Answer Created

unfoldable pub try_resolve : Config → World → Option String → List Log → Option ℕ → Answer Created
unfolding resolve_deadline
try_resolve config w hash logs none =
    throws "createAuditJob succeeded but JobPosted jobId could not be resolved"
try_resolve config w hash logs (some id) = gives (record {
  job_id = id;
  auction_deadline_sec = resolve_deadline config w logs;
  create_tx_hash = hash;
})

unfoldable pub try_receipt :
    Config → World → Option ℕ → Option String → Answer Receipt → Answer Created
unfolding try_resolve resolve_id
try_receipt config w expected hash (throws e) = throws e
try_receipt config w expected hash (gives reverted) = throws (reverted_message hash)
try_receipt config w expected hash (gives (mined logs)) =
    try_resolve config w hash logs (resolve_id expected logs w.next_job_id_after)

unfoldable pub try_send : Config → World → Option ℕ → Answer (Option String) → Tried
unfolding try_receipt
try_send config w expected (throws e) = record { steps = top_up ∷ create ∷ []; result = throws e }
try_send config w expected (gives hash) = record {
  steps = top_up ∷ create ∷ [];
  result = try_receipt config w expected hash w.receipt;
}

unfoldable pub try_next : Config → World → Answer (Option ℕ) → Tried
unfolding try_send
try_next config w (throws e) = record { steps = top_up ∷ []; result = throws e }
try_next config w (gives expected) = try_send config w expected w.tx_hash

unfoldable pub try_create : Config → World → Option String → Tried
unfolding try_next
try_create config w (some e) = record { steps = top_up ∷ []; result = throws e }
try_create config w none = try_next config w w.next_job_id

-- `Math.min(createBackoffMaxMs, createBackoffMs * 2 ** (attempt - 1))`
unfoldable pub delay_ms : Config → ℕ → ℕ
delay_ms config attempt =
    let base = max 1 config.backoff_ms in
    min (max base config.max_backoff_ms) (base * 2 ^ (attempt - 1))

unfoldable pub retry_steps : Config → String → ℕ → List Step
unfolding delay_ms
retry_steps config e attempt =
    (if is_insufficient_funds e then retry_top_up ∷ [] else [])
    ++ (if attempt == 1 then create_deferred ∷ [] else [])
    ++ create_retrying ∷ wait (delay_ms config attempt) ∷ []

unfoldable pub behind : List Step → Tried → Tried
behind steps t = record t { steps = steps ++ t.steps }

-- The end of an attempt: `next` is the loop's next turn.
unfoldable pub settle_attempt : Config → ℕ → Tried → (String → Tried) → ℕ → Answer Created → Tried
unfolding retry_steps behind
settle_attempt config most t next attempt (gives job) = t
settle_attempt config most t next attempt (throws e) =
    if not (is_retriable e) || leb most attempt
    then t
    else behind (t.steps ++ retry_steps config e attempt) (next e)

-- The loop, with `left` turns before it ends and the last error.
unfoldable pub attempts : Config → ℕ → (ℕ → World) → ℕ → ℕ → String → Tried
unfolding try_create settle_attempt
attempts config most world zero attempt last = record { steps = []; result = throws last }
attempts config most world (suc left) attempt last =
    let t = try_create config (world attempt) (world attempt).top_up_error in
    settle_attempt config most t (attempts config most world left (attempt + 1)) attempt t.result

unfoldable pub create_job : Config → (ℕ → World) → Tried
unfolding attempts
create_job config world =
    let most = max 1 config.max_attempts in attempts config most world most 1 ""

-- What is published after a failure; that the audit log takes it is assumed.
unfoldable pub failure_steps : Config → String → List Step
failure_steps config e =
    tx_failed e ∷ create_aborted e ∷ (if config.strict_live then job_failed e ∷ [] else [])

unfoldable pub report : Config → Tried → Answer Created → Tried
unfolding failure_steps
report config t (gives job) = t
report config t (throws e) = record t { steps = t.steps ++ failure_steps config e }

-- The creation with its report; a `has_create` of false is a client without `createAuditJob`.
unfoldable pub create_audit_job : Config → Bool → (ℕ → World) → Tried
unfolding create_job report
create_audit_job config has_create world =
    let t =
      if has_create
      then create_job config world
      else record { steps = []; result = throws "createAuditJob unavailable on contract client" } in
    report config t t.result
