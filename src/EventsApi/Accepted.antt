-- ===== src/EventsApi/Accepted.antt =====
-- Which requests the events API lets in and which events it takes
-- (packages/events-api/src/middleware/auth.js, packages/events-api/src/validation.js).
use Prim.Native.String.{[] as blank, ◌∷◌ as cons}
use audit_guard.Prelude.{
  ℕ, ◌≤◌, ◌<◌, String, ◌≡◌, refl, true, false, Option, none, some, trim, is_empty, ltb, ◌==◌, ◌===◌,
  ◌||◌, ◌or_else◌, if◌then◌else◌, member, arith, Bool-cases, inl, inr, eq_iff, eq_refl, ◌≢◌, ap,
  lower, ◌∙◌,
}
use audit_guard.EventsApi.Auth.{
  utf16_length, extract_token, is_local_app_env, timing_safe_equal, next, misconfigured,
  unauthorized, after_prefix, min_token_length, require_auth,
}
use audit_guard.EventsApi.Validation.{
  Value, text, number, RawMessage, Body, Event, Parsed, rejected, accepted, valid_message_types,
  max_string_length, max_payload_size, bounded, as_string, as_number, check_payload,
  check_timestamp, check_agent, check_type, check_message, check_source, parse_event_ingest_request,
}

timing_safe_equal-eq : (a b : String) → timing_safe_equal a b ≡ (a === b)
unfolding timing_safe_equal
timing_safe_equal-eq a b = elim (Bool-cases (a === b)) [
  | inl same ↦ rw ((eq_iff a b).0 same) (ground (arith, eq_refl b))
  | inr other ↦ ground (arith, other)
]

utf16_length-is_empty : (s : String) → is_empty s ≡ true → utf16_length s ≡ 0
unfolding utf16_length
utf16_length-is_empty blank e = refl
utf16_length-is_empty (cons c s) e = cc

-- A text behind another one.
abbrev pub behind : String → String → String
behind blank s = s
behind (cons c p) s = cons c (behind p s)

after_prefix-behind : (p s : String) → after_prefix p (behind p s) ≡ some s
unfolding after_prefix
after_prefix-behind blank s = refl
after_prefix-behind (cons c p) s = ground (arith, after_prefix-behind p s)

extract_token-behind : (s : String) → trim s ≡ s → extract_token (behind "Bearer " s) ≡ s
unfolding extract_token
extract_token-behind s clean =
    ap (λ (o : Option String). trim (o or_else behind "Bearer " s))
      (after_prefix-behind "Bearer " s)
    ∙ clean

blank-extract_token : extract_token "" ≡ ""
unfolding extract_token trim
blank-extract_token = refl

unset-require_auth : (header : Option String) → require_auth none none header ≡ misconfigured
unfolding require_auth trim is_local_app_env lower
unset-require_auth header = refl

differs-eq : (s t : String) → s ≢ t → (s === t) ≡ false
differs-eq s t differs = elim (Bool-cases (s === t)) [
  | inl same ↦ absurd (differs ((eq_iff s t).0 same))
  | inr other ↦ other
]

long-eq : (token : String) → 32 ≤ utf16_length token → ("" === token) ≡ false
unfolding utf16_length
long-eq token long = differs-eq "" token (λ e.
    let none_there : 0 ≡ utf16_length token = ap utf16_length e in omega (arith, long, none_there))

-- With a token that is long enough, the text of the header decides.
configured-require_auth :
    (token : String) (app_env header : Option String)
    → 32 ≤ utf16_length (trim token)
    → require_auth (some token) app_env header
      ≡ (if extract_token (header or_else "") === trim token then next else unauthorized)
unfolding require_auth min_token_length
configured-require_auth token app_env header long = ground (
  arith,
  long,
  timing_safe_equal-eq (extract_token (header or_else "")) (trim token),
  utf16_length-is_empty (trim token),
)

-- Where a token of 32 units at least is set, without white space at its ends, a request that brings it
-- behind "Bearer " passes in every environment; one that brings another text there, also without white
-- space at its ends, or no header, is refused. Where no token is set and no environment is named,
-- every request is refused.
pub require_auth-bearer :
    (token other : String) (app_env header : Option String)
    → trim token ≡ token
    → 32 ≤ utf16_length token
    → trim other ≡ other
    → other ≢ token
    → (require_auth (some token) app_env (some (behind "Bearer " token)) ≡ next)
      × (require_auth (some token) app_env (some (behind "Bearer " other)) ≡ unauthorized)
      × (require_auth (some token) app_env none ≡ unauthorized)
      × (require_auth none none header ≡ misconfigured)
require_auth-bearer token other app_env header clean long tidy differs =
    let set : 32 ≤ utf16_length (trim token) = rw clean long in
    (
      configured-require_auth token app_env (some (behind "Bearer " token)) set
          ∙ rw (extract_token-behind token clean, clean, eq_refl token) refl,
      configured-require_auth token app_env (some (behind "Bearer " other)) set
          ∙ rw (extract_token-behind other tidy, clean, differs-eq other token differs) refl,
      configured-require_auth token app_env none set
          ∙ rw (clean, blank-extract_token, long-eq token long) refl,
      unset-require_auth header,
    )

-- A text that the parsers take, of so many units at most.
abbrev pub IsBounded : ℕ → String → Type 0
IsBounded most s = (0 < utf16_length s) × (utf16_length s ≤ most)

module _ {P : Type 0} (json_length : P → ℕ) where
  abbrev pub IsValid : Event P → Type 0
  IsValid e =
      IsBounded 500 e.source
      × IsBounded 500 e.topic_id
      × (member e.type valid_message_types ≡ true)
      × IsBounded 100 e.agent_id
      × (json_length e.payload ≤ 50000)

  abbrev pub IsSound : Parsed P → Type 0
  IsSound (rejected r) = Unit
  IsSound (accepted e) = IsValid e

abbrev IsTaken : ℕ → Option String → Type 0
IsTaken most none = Unit
IsTaken most (some s) = IsBounded most s

bounded-IsTaken : (most : ℕ) (s : String) → IsTaken most (bounded most s)
unfolding bounded
bounded-IsTaken most s = elim (Bool-cases (utf16_length s == 0 || ltb most (utf16_length s))) [
  | inl out ↦ simp out tt
  | inr fits ↦ simp fits (ground (arith, fits), ground (arith, fits))
]

as_string-IsTaken : (most : ℕ) (v : Value) → IsTaken most (as_string most v)
unfolding as_string
as_string-IsTaken most (text s) = bounded-IsTaken most (trim s)
as_string-IsTaken most (number n) = tt
as_string-IsTaken most Value.absent = tt
as_string-IsTaken most Value.other = tt

module _ (to_number : String → Option ℕ) {P : Type 0} (json_length : P → ℕ) where
  payload-IsSound :
      (source topic type agent : String) (t : ℕ) (p : Option P)
      → IsBounded 500 source
      → IsBounded 500 topic
      → member type valid_message_types ≡ true
      → IsBounded 100 agent
      → IsSound json_length (check_payload to_number json_length source topic type agent t p)
  unfolding check_payload max_payload_size
  payload-IsSound source topic type agent t none hs ht hm ha = tt
  payload-IsSound source topic type agent t (some p) hs ht hm ha =
      elim (Bool-cases (ltb 50000 (json_length p))) [
        | inl large ↦ simp large tt
        | inr small ↦ simp small (hs, ht, hm, ha, ground (arith, small))
      ]

  timestamp-IsSound :
      (source topic type agent : String) (t : Option ℕ) (p : Option P)
      → IsBounded 500 source
      → IsBounded 500 topic
      → member type valid_message_types ≡ true
      → IsBounded 100 agent
      → IsSound json_length (check_timestamp to_number json_length source topic type agent t p)
  unfolding check_timestamp
  timestamp-IsSound source topic type agent none p hs ht hm ha = tt
  timestamp-IsSound source topic type agent (some t) p hs ht hm ha =
      payload-IsSound source topic type agent t p hs ht hm ha

  agent-IsSound :
      (source topic type : String) (a : Option String) (m : RawMessage P)
      → IsBounded 500 source
      → IsBounded 500 topic
      → member type valid_message_types ≡ true
      → IsTaken 100 a
      → IsSound json_length (check_agent to_number json_length source topic type a m)
  unfolding check_agent
  agent-IsSound source topic type none m hs ht hm ha = tt
  agent-IsSound source topic type (some agent) m hs ht hm ha =
      timestamp-IsSound source topic type agent (as_number to_number m.timestamp) m.payload hs ht hm
        ha

  type-IsSound :
      (source topic : String) (type : Option String) (m : RawMessage P)
      → IsBounded 500 source
      → IsBounded 500 topic
      → IsSound json_length (check_type to_number json_length source topic type m)
  unfolding check_type
  type-IsSound source topic none m hs ht = tt
  type-IsSound source topic (some type) m hs ht =
      elim (Bool-cases (member type valid_message_types)) [
        | inl known ↦ rw known (
            agent-IsSound source topic type (as_string 100 m.agent_id) m hs ht known
              (as_string-IsTaken 100 m.agent_id))
        | inr unknown ↦ rw unknown tt
      ]

  message-IsSound :
      (source topic : String) (m : Option (RawMessage P))
      → IsBounded 500 source
      → IsBounded 500 topic
      → IsSound json_length (check_message to_number json_length source topic m)
  unfolding check_message
  message-IsSound source topic none hs ht = tt
  message-IsSound source topic (some m) hs ht =
      type-IsSound source topic (as_string max_string_length m.type) m hs ht

  source-IsSound :
      (source topic : Option String) (m : Option (RawMessage P))
      → IsTaken 500 source
      → IsTaken 500 topic
      → IsSound json_length (check_source to_number json_length source topic m)
  unfolding check_source
  source-IsSound none topic m hs ht = tt
  source-IsSound (some s) none m hs ht = tt
  source-IsSound (some s) (some t) m hs ht = message-IsSound s t m hs ht

  -- An event that is taken is of a known type, its source and topic have 1 to 500 units, its agent has
  -- 1 to 100, and its payload's JSON text has 50000 at most.
  pub parse_event_ingest_request-IsSound :
      (b : Option (Body P))
      → IsSound json_length (parse_event_ingest_request to_number json_length b)
  unfolding parse_event_ingest_request max_string_length
  parse_event_ingest_request-IsSound none = tt
  parse_event_ingest_request-IsSound (some b) =
      source-IsSound (as_string 500 b.source) (as_string 500 b.topic_id) b.message
        (as_string-IsTaken 500 b.source) (as_string-IsTaken 500 b.topic_id)
