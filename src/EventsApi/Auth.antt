-- ===== src/EventsApi/Auth.antt =====
-- packages/events-api/src/middleware/auth.js. The environment and the header are arguments, and the
-- answer is a value. The comparison in constant time compares bytes, so it is equality of texts.
use Prim.Native.Char.{code}
use Prim.Native.String.{[] as blank, ◌∷◌ as cons}
use audit_guard.Prelude.{
  ℕ, ◌+◌, String, Bool, false, Option, none, some, lower, trim, is_empty, ltb, ◌==◌, ◌===◌, ◌||◌,
  ◌or_else◌, if◌then◌else◌, not,
}

-- `length` counts UTF-16 units.
unfoldable pub utf16_length : String → ℕ
utf16_length blank = 0
utf16_length (cons c s) = (if ltb 65535 (code c) then 2 else 1) + utf16_length s

-- What follows a prefix.
unfoldable pub after_prefix : String → String → Option String
after_prefix blank s = some s
after_prefix (cons p ps) blank = none
after_prefix (cons p ps) (cons c s) =
    let rest = after_prefix ps s in if code p == code c then rest else none

-- A header that is missing is the empty text.
unfoldable pub extract_token : String → String
unfolding after_prefix
extract_token header = trim (after_prefix "Bearer " header or_else header)

unfoldable pub is_local_app_env : Option String → Bool
is_local_app_env app_env =
    let env = lower (trim (app_env or_else "production")) in
    env === "local" || env === "development" || env === "dev"

unfoldable pub timing_safe_equal : String → String → Bool
unfolding utf16_length
timing_safe_equal a b = if not (utf16_length a == utf16_length b) then false else a === b

pub data Answer : Type 0 where
  next misconfigured unauthorized : Answer

unfoldable pub min_token_length : ℕ
min_token_length = 32

unfoldable pub require_auth : Option String → Option String → Option String → Answer
unfolding utf16_length extract_token is_local_app_env timing_safe_equal min_token_length
require_auth ingest_token app_env header =
    let required = trim (ingest_token or_else "") in
    if is_empty required || ltb (utf16_length required) min_token_length
    then (if is_local_app_env app_env then next else misconfigured)
    else if not (timing_safe_equal (extract_token (header or_else "")) required)
    then unauthorized
    else next
