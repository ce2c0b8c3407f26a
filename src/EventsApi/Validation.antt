-- ===== src/EventsApi/Validation.antt =====
-- packages/events-api/src/validation.js. `P` is a payload: an object whose fields the parsers read by
-- name. What `Number` makes of a text, and the length of an object's JSON text, are arguments;
-- numbers are the natural ones.
use audit_guard.Prelude.{
  ℕ, String, Option, none, some, List, [], ◌∷◌, trim, is_empty, ltb, ◌==◌, ◌||◌, ◌or_else◌,
  if◌then◌else◌, member, min, not,
}
use audit_guard.EventsApi.Auth.{utf16_length}

-- A value of a request, as far as the parsers tell values apart. A number may be not finite.
pub data Value : Type 0 where
  absent other : Value
  text : String → Value
  number : Option ℕ → Value

-- The message of a request. `none` is a payload that is no object.
pub record RawMessage (P : Type 0) : Type 0 where
  pub type : Value
  pub agent_id : Value
  pub timestamp : Value
  pub payload : Option P

pub record Body (P : Type 0) : Type 0 where
  pub source : Value
  pub topic_id : Value
  pub message : Option (RawMessage P)

pub record Event (P : Type 0) : Type 0 where
  pub source : String
  pub topic_id : String
  pub type : String
  pub agent_id : String
  pub timestamp : ℕ
  pub payload : P

pub data Rejection : Type 0 where
  bad_body bad_source bad_topic bad_message bad_type unknown_type bad_agent bad_timestamp
        bad_payload too_large :
      Rejection

pub data Parsed (P : Type 0) : Type 0 where
  rejected : Rejection → Parsed P
  accepted : Event P → Parsed P

abbrev pub valid_message_types : List String
valid_message_types =
    "CONTRACT_DISCOVERED" ∷ "AUCTION_INVITE" ∷ "BID_SUBMITTED" ∷ "BID_SKIPPED" ∷ "BID_DEDUPED"
    ∷ "BID_QUEUE_DROPPED" ∷ "BID_LATE_DROP" ∷ "BID_SUBMISSION_FAILED" ∷ "AUCTION_INVITE_SUMMARY"
    ∷ "JOB_CREATE_DEFERRED" ∷ "JOB_CREATE_RETRYING" ∷ "JOB_CREATE_ABORTED"
    ∷ "WINNER_SELECTION_SUMMARY" ∷ "LLM_PROVIDER_READY" ∷ "LLM_PROVIDER_UNHEALTHY"
    ∷ "LLM_INFERENCE_STARTED" ∷ "LLM_INFERENCE_SUCCEEDED" ∷ "LLM_INFERENCE_FAILED"
    ∷ "WINNER_SELECTED" ∷ "WINNERS_SELECTED" ∷ "SUB_AUCTION_CREATED" ∷ "SUB_AUCTION_POSTED"
    ∷ "SUB_BID_SUBMITTED" ∷ "SUB_WINNER_SELECTED" ∷ "SUB_RESULT_DELIVERED" ∷ "SUB_RESULT_ACCEPTED"
    ∷ "DATA_LISTED" ∷ "DATA_LISTING_CREATED" ∷ "DATA_PURCHASED" ∷ "PAYMENT_SETTLED"
    ∷ "FINDINGS_SUBMITTED" ∷ "REPORT_PUBLISHED" ∷ "REPUTATION_UPDATED" ∷ "ALERT_FIRED"
    ∷ "AUCTION_CREATED" ∷ "JOB_CANCELLED" ∷ "PING" ∷ "PONG" ∷ []

unfoldable pub max_string_length : ℕ
max_string_length = 500

unfoldable pub max_payload_size : ℕ
max_payload_size = 50000

unfoldable pub bounded : ℕ → String → Option String
bounded most s = if utf16_length s == 0 || ltb most (utf16_length s) then none else some s

unfoldable pub as_string : ℕ → Value → Option String
unfolding bounded
as_string most (text s) = bounded most (trim s)
as_string most _ = none

module _ (to_number : String → Option ℕ) where
  unfoldable pub as_number : Value → Option ℕ
  as_number (number n) = n
  as_number (text s) = if is_empty (trim s) then none else to_number s
  as_number _ = none

  module _ {P : Type 0} (json_length : P → ℕ) where
    -- The checks one after another, each given what the ones before it found.
    unfoldable pub check_payload : String → String → String → String → ℕ → Option P → Parsed P
    unfolding max_payload_size
    check_payload source topic type agent timestamp none = rejected bad_payload
    check_payload source topic type agent timestamp (some p) =
        if ltb max_payload_size (json_length p)
        then rejected too_large
        else accepted (record {
          source = source;
          topic_id = topic;
          type = type;
          agent_id = agent;
          timestamp = timestamp;
          payload = p;
        })

    unfoldable pub check_timestamp :
        String → String → String → String → Option ℕ → Option P → Parsed P
    unfolding check_payload
    check_timestamp source topic type agent none payload = rejected bad_timestamp
    check_timestamp source topic type agent (some t) payload =
        check_payload source topic type agent t payload

    unfoldable pub check_agent : String → String → String → Option String → RawMessage P → Parsed P
    unfolding as_number check_timestamp
    check_agent source topic type none m = rejected bad_agent
    check_agent source topic type (some agent) m =
        check_timestamp source topic type agent (as_number m.timestamp) m.payload

    unfoldable pub check_type : String → String → Option String → RawMessage P → Parsed P
    unfolding as_string check_agent
    check_type source topic none m = rejected bad_type
    check_type source topic (some type) m =
        if not (member type valid_message_types)
        then rejected unknown_type
        else check_agent source topic type (as_string 100 m.agent_id) m

    unfoldable pub check_message : String → String → Option (RawMessage P) → Parsed P
    unfolding as_string max_string_length check_type
    check_message source topic none = rejected bad_message
    check_message source topic (some m) =
        check_type source topic (as_string max_string_length m.type) m

    unfoldable pub check_source : Option String → Option String → Option (RawMessage P) → Parsed P
    unfolding check_message
    check_source none topic message = rejected bad_source
    check_source (some source) none message = rejected bad_topic
    check_source (some source) (some topic) message = check_message source topic message

    -- `none` is a body that is no object.
    unfoldable pub parse_event_ingest_request : Option (Body P) → Parsed P
    unfolding as_string max_string_length check_source
    parse_event_ingest_request none = rejected bad_body
    parse_event_ingest_request (some b) =
        check_source (as_string max_string_length b.source) (as_string max_string_length b.topic_id)
          b.message

pub record BidSkip : Type 0 where
  pub job_id : Option ℕ
  pub agent_id : String
  pub reason_code : Option String
  pub reason : Option String
  pub invite_budget : Option ℕ
  pub bid_amount : Option ℕ

-- `fields` reads a payload by the name of a field.
unfoldable pub parse_bid_skip_payload : (String → Option ℕ) → (String → Value) → String → BidSkip
unfolding as_number as_string max_string_length
parse_bid_skip_payload to_number fields fallback = record {
  job_id = as_number to_number (fields "jobId");
  agent_id = as_string max_string_length (fields "agentId") or_else fallback;
  reason_code = as_string max_string_length (fields "reasonCode");
  reason = as_string max_string_length (fields "reason");
  invite_budget = as_number to_number (fields "inviteBudget");
  bid_amount = as_number to_number (fields "bidAmount");
}

unfoldable pub limit_of : Option ℕ → ℕ → ℕ → ℕ
limit_of none fallback most = fallback
limit_of (some n) fallback most = if n == 0 then fallback else min n most

-- The value of a query is a text or missing; what is no positive whole number is the fallback.
unfoldable pub parse_limit : (String → Option ℕ) → Option String → ℕ → ℕ → ℕ
unfolding limit_of
parse_limit to_number none fallback most = fallback
parse_limit to_number (some s) fallback most =
    if is_empty s then fallback else limit_of (to_number s) fallback most
