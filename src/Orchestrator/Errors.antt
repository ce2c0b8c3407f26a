-- ===== src/Orchestrator/Errors.antt =====
-- The classes of an error by its message: `isNonceTooLowError`, `isInsufficientFundsError`,
-- `isTransientRpcError` and `isAuctionTerminalError` of orchestrator/src/orchestrator.js. The
-- patterns are searched anywhere in the message, without regard to case.
use Prim.Native.Char.{code}
use Prim.Native.String.{[] as end, ◌∷◌ as cons}
use audit_guard.Prelude.{
  ℕ, String, Bool, true, false, List, [], ◌∷◌, ◌&&◌, ◌||◌, leb, ◌==◌, if◌then◌else◌, lower, any,
}

-- `#` (35) in a pattern is `\d`.
unfoldable pub fits_char : ℕ → ℕ → Bool
fits_char p c = if p == 35 then leb 48 c && leb c 57 else p == c

-- The text begins with the pattern.
unfoldable pub fits : String → String → Bool
unfolding fits_char
fits end s = true
fits (cons p ps) end = false
fits (cons p ps) (cons c s) = fits_char (code p) (code c) && fits ps s

unfoldable pub contains : String → String → Bool
unfolding fits
contains pattern end = fits pattern end
contains pattern (cons c s) = fits pattern (cons c s) || contains pattern s

unfoldable pub matches : List String → String → Bool
unfolding contains
matches patterns message = any (λ p. contains p (lower message)) patterns

unfoldable pub is_nonce_too_low : String → Bool
unfolding matches
is_nonce_too_low message = matches ("nonce too low" ∷ []) message

unfoldable pub is_insufficient_funds : String → Bool
unfolding matches
is_insufficient_funds message =
    matches ("insufficient funds" ∷ "insufficient_payer_balance" ∷ "orchestrator_hbar_low" ∷ [])
      message

unfoldable pub is_transient_rpc : String → Bool
unfolding matches
is_transient_rpc message =
    matches
      ("502 bad gateway" ∷ "server response 5##" ∷ "timeout" ∷ "timed out" ∷ "unavailable"
        ∷ "fetch failed" ∷ "busy" ∷ "temporar" ∷ [])
      message

unfoldable pub is_auction_terminal : String → Bool
unfolding matches
is_auction_terminal message =
    matches
      ("only open jobs cancellable" ∷ "invalid job status" ∷ "job does not exist"
        ∷ "already completed" ∷ "already cancelled" ∷ [])
      message

-- What the retry loops go on after.
unfoldable pub is_retriable : String → Bool
unfolding is_nonce_too_low is_insufficient_funds is_transient_rpc
is_retriable message =
    is_nonce_too_low message || is_insufficient_funds message || is_transient_rpc message
