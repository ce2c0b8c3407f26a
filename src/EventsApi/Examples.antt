-- ===== src/EventsApi/Examples.antt =====
-- The theorems on the events API, at concrete requests.
use audit_guard.Prelude.{
  ℕ, String, ◌≡◌, refl, Option, none, some, trim, arith, false, ◌===◌, ◌≢◌, eq_iff, sym, ◌∙◌,
}
use mathlib.Core.Bool.{false≢true}
use audit_guard.EventsApi.Auth.{utf16_length, require_auth, next, unauthorized, misconfigured}
use audit_guard.EventsApi.Validation.{Event, accepted, parse_event_ingest_request}
use audit_guard.EventsApi.Accepted.{
  behind, require_auth-bearer, IsSound, parse_event_ingest_request-IsSound,
}
use audit_guard.EventsApi.Again.{request_of, parse_event-request_of}

abbrev token : String
token = "0123456789abcdef0123456789abcdef"

abbrev to_number : String → Option ℕ
to_number s = none

abbrev json_length : ℕ → ℕ
json_length n = n

abbrev ping : Event ℕ
ping = record {
  source = "agents";
  topic_id = "0.0.7";
  type = "PING";
  agent_id = "alice";
  timestamp = 9;
  payload = 12;
}

abbrev wrong : String
wrong = "0123456789abcdef0123456789abcdee"

tokens_differ : wrong ≢ token
tokens_differ e = absurd (false≢true (sym wrong_eq ∙ (eq_iff wrong token).1 e))
  where
    wrong_eq : (wrong === token) ≡ false
    wrong_eq = refl

require_auth-bearer_example :
    (require_auth (some token) none (some (behind "Bearer " token)) ≡ next)
    × (require_auth (some token) none (some (behind "Bearer " wrong)) ≡ unauthorized)
    × (require_auth (some token) none none ≡ unauthorized)
    × (require_auth none none none ≡ misconfigured)
unfolding utf16_length trim
require_auth-bearer_example =
    require_auth-bearer token wrong none none refl (omega arith) refl tokens_differ

parse_event_ingest_request-IsSound_example :
    IsSound json_length (parse_event_ingest_request to_number json_length (some (request_of ping)))
parse_event_ingest_request-IsSound_example =
    parse_event_ingest_request-IsSound to_number json_length (some (request_of ping))

parse_event-request_of_example :
    parse_event_ingest_request to_number json_length (some (request_of ping)) ≡ accepted ping
unfolding trim utf16_length
parse_event-request_of_example =
    parse_event-request_of to_number json_length ping (refl, (omega arith, omega arith))
      (refl, (omega arith, omega arith)) (refl, (omega arith, omega arith))
      (refl, (omega arith, omega arith)) refl (omega arith)
