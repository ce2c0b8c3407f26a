-- ===== src/Orchestrator/Pings/Examples.antt =====
-- A ping that is answered, and the same answer again: later, and while the first awaits the registry.
use audit_guard.Prelude.Map
use audit_guard.Prelude.{lower, ◌≡◌, refl, true, none, some, [], ◌∷◌}
use audit_guard.Orchestrator.Pings.{
  State, Pong, found, Waiting, Verifier, send_ping, begin_pong, end_pong, ping, pong, answered,
  tidy, handle,
}
use audit_guard.Orchestrator.Pings.Single.{Trace, IsAnswer, handle_all, begin_pong-end_pong}

abbrev verifier : Verifier
verifier = record { recover = λ message signature. some "0xA"; has_registry = true }

abbrev answer : Pong
answer = record {
  agent_id = "fuzzer";
  nonce = some "n1";
  signature = some "sig";
  message = some "pong n1";
}

abbrev sent : State
sent = send_ping 1000 "n1" (record { pending = []; waiting = []; roster = [] })

abbrev waiting : Waiting
waiting = record { agent_id = "fuzzer"; nonce = "n1"; signer = "0xA" }

abbrev events : Trace
events = (verifier, 3000, ping "n2") ∷ (verifier, 4000, pong answer) ∷ (verifier, 60000, tidy) ∷ []

begun : (begin_pong verifier 2000 answer sent).0 ≡ some waiting
unfolding begin_pong Map.get send_ping Map.set
begun = refl

verified : (end_pong (found "0xa") waiting sent).0 ≡ true
unfolding end_pong lower
verified = refl

begin_pong-end_pong_example :
    IsAnswer verifier 2000 answer sent waiting
    × ((begin_pong verifier 61000 answer
          (handle_all events (end_pong (found "0xa") waiting sent).1)).0
        ≡ none)
begin_pong-end_pong_example =
    begin_pong-end_pong verifier verifier 2000 61000 answer answer (found "0xa") events sent sent
      waiting begun verified refl (refl, (tt, (tt, tt)))

-- Two answers begin before the registry replies to the first, and the second is verified too.
abbrev side_by_side : State
side_by_side =
    handle_all
      ((verifier, 2000, pong answer)
        ∷ (verifier, 2000, pong answer)
        ∷ (verifier, 2001, answered 0 (found "0xa"))
        ∷ [])
      sent

second_is_verified : (end_pong (found "0xa") waiting side_by_side).0 ≡ true
unfolding end_pong lower
second_is_verified = refl

second_waits : side_by_side.waiting ≡ waiting ∷ []
unfolding handle_all Map.get Map.set Map.delete send_ping lower handle
second_waits = refl
