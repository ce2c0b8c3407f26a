-- ===== src/Orchestrator/Pings.antt =====
-- The pings of orchestrator/src/orchestrator.js (`startPingLoop`, `verifyPongSignature`,
-- `cleanupExpiredPings` and the answer to a PONG of `subscribeAgentComms`). The nonces, the clock, the
-- recovery of a signer and the registry's answers are arguments. Handlers run side by side: one that
-- awaits `getAgent` stands among those that wait, and other events come in between. Times are in
-- milliseconds.
use audit_guard.Prelude.{
  ℕ, ◌+◌, String, Bool, true, false, Option, none, some, List, [], ◌∷◌, lower, ltb, ◌===◌, ◌||◌,
  ◌&&◌, not, zero, suc, ◌++◌, if◌then◌else◌, is_empty,
}
use audit_guard.Prelude.Map
use audit_guard.Prelude.Map.{Map}
use audit_guard.Orchestrator.Roster.{Roster, record_pong}
pub mod Single
mod Examples

pub record Ping : Type 0 where
  pub timestamp : ℕ
  pub expires_at : ℕ

-- A verification that awaits `getAgent`.
pub record Waiting : Type 0 where
  pub agent_id : String
  pub nonce : String
  pub signer : String

pub record State : Type 0 where
  pub pending : Map Ping
  pub waiting : List Waiting
  pub roster : Roster

pub record Pong : Type 0 where
  pub agent_id : String
  pub nonce : Option String
  pub signature : Option String
  pub message : Option String

-- The registry's answer: a call that throws, no profile or one without an address, or the address.
pub data Profile : Type 0 where
  call_throws no_profile : Profile
  found : String → Profile

-- `ethers.verifyMessage`, which may throw, and whether the client has `getAgent`.
pub record Verifier : Type 0 where
  pub recover : String → String → Option String
  pub has_registry : Bool

unfoldable pub send_ping : ℕ → String → State → State
send_ping now nonce s = record s {
  pending = Map.set nonce (record { timestamp = now; expires_at = now + 30000 }) s.pending;
}

unfoldable pub drop_nonce : String → State → State
drop_nonce nonce s = record s { pending = Map.delete nonce s.pending }

unfoldable pub fits_profile : String → Profile → Bool
fits_profile signer call_throws = false
fits_profile signer no_profile = false
fits_profile signer (found address) = not (is_empty address) && lower signer === lower address

unfoldable pub await_agent : Verifier → String → String → Option String → Option Waiting
await_agent v id nonce none = none
await_agent v id nonce (some signer) =
    if v.has_registry then some (record { agent_id = id; nonce = nonce; signer = signer }) else none

-- Up to `await getAgent(…)`, for a ping that is pending: past its time it is dropped. `none` is false.
unfoldable pub verify_ping :
    Verifier → ℕ → String → String → String → String → Option Ping → State → Option Waiting × State
unfolding drop_nonce await_agent
verify_ping v now id nonce message signature none s = (none, s)
verify_ping v now id nonce message signature (some ping) s =
    if ltb ping.expires_at now
    then (none, drop_nonce nonce s)
    else (await_agent v id nonce (v.recover message signature), s)

unfoldable pub verify_fields :
    Verifier
    → ℕ
    → String
    → Option String
    → Option String
    → Option String
    → State
    → Option Waiting × State
unfolding verify_ping
verify_fields v now id (some nonce) (some signature) (some message) s =
    if is_empty nonce || is_empty signature || is_empty message
    then (none, s)
    else verify_ping v now id nonce message signature (Map.get nonce s.pending) s
verify_fields v now id _ _ _ s = (none, s)

unfoldable pub begin_pong : Verifier → ℕ → Pong → State → Option Waiting × State
unfolding verify_fields
begin_pong v now pong s = verify_fields v now pong.agent_id pong.nonce pong.signature pong.message s

-- Behind the `await`: a signer that fits uses the nonce up.
unfoldable pub end_pong : Profile → Waiting → State → Bool × State
unfolding fits_profile drop_nonce
end_pong reply w s =
    if fits_profile w.signer reply then (true, drop_nonce w.nonce s) else (false, s)

-- The answer to a PONG that is verified: the agent that it names was seen.
unfoldable pub after_pong : ℕ → String → Bool × State → State
after_pong now id (true, s) = record s { roster = record_pong now id s.roster }
after_pong now id (false, s) = s

unfoldable pub wait_for : Option Waiting × State → State
wait_for (none, s) = s
wait_for (some w, s) = record s { waiting = s.waiting ++ w ∷ [] }

unfoldable pub take_waiting : ℕ → List Waiting → Option (Waiting × List Waiting)
take_waiting n [] = none
take_waiting zero (w ∷ ws) = some (w, ws)
take_waiting (suc n) (w ∷ ws) = elim (take_waiting n ws) [
  | none ↦ none
  | some r ↦ some (r.0, w ∷ r.1)
]

-- The registry's answer for the verification at a place among those that wait.
unfoldable pub resume : ℕ → Profile → Option (Waiting × List Waiting) → State → State
unfolding end_pong after_pong
resume now reply none s = s
resume now reply (some (w, ws)) s =
    after_pong now w.agent_id (end_pong reply w (record s { waiting = ws }))

unfoldable pub cleanup_pings : ℕ → Map Ping → Map Ping
cleanup_pings now [] = []
cleanup_pings now ((nonce, ping) ∷ m) =
    let rest = cleanup_pings now m in if ltb ping.expires_at now then rest else (nonce, ping) ∷ rest

unfoldable pub cleanup : ℕ → State → State
unfolding cleanup_pings
cleanup now s = record s { pending = cleanup_pings now s.pending }

-- What happens, with its time.
pub data Event : Type 0 where
  ping : String → Event
  pong : Pong → Event
  answered : ℕ → Profile → Event
  tidy : Event

unfoldable pub handle : Verifier → ℕ → Event → State → State
unfolding send_ping begin_pong wait_for take_waiting resume cleanup
handle v now (ping nonce) s = send_ping now nonce s
handle v now (pong p) s = wait_for (begin_pong v now p s)
handle v now (answered n reply) s = resume now reply (take_waiting n s.waiting) s
handle v now tidy s = cleanup now s
