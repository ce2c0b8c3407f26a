-- ===== src/EventsApi/Again.antt =====
-- An event as it is stored, sent again (packages/events-api/src/validation.js).
use audit_guard.Prelude.{ℕ, ◌≤◌, String, ◌≡◌, refl, true, Option, some, trim, member, arith, le→ltb}
use audit_guard.EventsApi.Validation.{
  text, number, Body, Event, accepted, valid_message_types, max_string_length, max_payload_size,
  bounded, as_string, as_number, check_payload, check_timestamp, check_agent, check_type,
  check_message, check_source, parse_event_ingest_request,
}
use audit_guard.EventsApi.Accepted.{IsBounded}

-- The request that brings an event.
abbrev pub request_of : {P : Type 0} → Event P → Body P
request_of e = record {
  source = text e.source;
  topic_id = text e.topic_id;
  message = some (record {
    type = text e.type;
    agent_id = text e.agent_id;
    timestamp = number (some e.timestamp);
    payload = some e.payload;
  });
}

-- A text with no white space at its ends, of so many units.
abbrev pub IsClean : ℕ → String → Type 0
IsClean most s = (trim s ≡ s) × IsBounded most s

bounded-kept : (most : ℕ) (s : String) → IsBounded most s → bounded most s ≡ some s
unfolding bounded
bounded-kept most s h = ground (arith, h.0, h.1)

as_string-kept : (most : ℕ) (s : String) → IsClean most s → as_string most (text s) ≡ some s
unfolding as_string
as_string-kept most s h = rw h.0 (bounded-kept most s h.1)

-- An event of a known type is taken as it is when it is sent, if its source, topic and type are clean
-- texts of 1 to 500 units and its agent one of 1 to 100, and its payload is not too large.
pub parse_event-request_of :
    {P : Type 0} (to_number : String → Option ℕ) (json_length : P → ℕ) (e : Event P)
    → IsClean 500 e.source
    → IsClean 500 e.topic_id
    → IsClean 500 e.type
    → IsClean 100 e.agent_id
    → member e.type valid_message_types ≡ true
    → json_length e.payload ≤ 50000
    → parse_event_ingest_request to_number json_length (some (request_of e)) ≡ accepted e
unfolding parse_event_ingest_request max_string_length max_payload_size check_source check_message
    check_type check_agent check_timestamp check_payload as_number
parse_event-request_of to_number json_length e source topic type agent known small =
    let fits = le→ltb 50000 (json_length e.payload) small in
    rw (as_string-kept 500 e.source source) (
      rw (as_string-kept 500 e.topic_id topic) (
        rw (as_string-kept 500 e.type type)
          (rw (as_string-kept 100 e.agent_id agent) (simp (known, fits) refl))))
