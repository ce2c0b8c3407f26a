-- ===== src/Orchestrator/Closing/Examples.antt =====
-- Runs of closing, with a nonce that is too low in the first attempt.
use audit_guard.Prelude.Map
use audit_guard.Prelude.{lower, ℕ, zero, suc, ◌≡◌, refl, true, none, some, [], ◌∷◌}
use audit_guard.Orchestrator.Errors.{
  fits_char, fits, contains, matches, is_nonce_too_low, is_insufficient_funds, is_transient_rpc,
  is_auction_terminal, is_retriable,
}
use audit_guard.Orchestrator.Closing.{
  new_job, State, Answers, receipt, failed, closed, open_still, run_close, Run, finish_call,
  attempts, close_expired_auction, begin_close,
}
use audit_guard.Orchestrator.Closing.Attempts.{IsGood, run_close-IsGood}
use audit_guard.Orchestrator.Closing.SingleFlight.{
  Running, note_begun, begins, Reached, start, move, IsSingle, reached-IsSingle,
}

abbrev one_open : State
one_open = record { jobs = ("7", new_job) ∷ []; timers = ("7", 90) ∷ []; inflight = [] }

abbrev low_nonce : Answers
low_nonce = record {
  top_up_error = none;
  cancelled = failed "Nonce too low";
  publish_error = none;
  at = 10;
}

abbrev goes_through : Answers
goes_through = record {
  top_up_error = none;
  cancelled = receipt (some "0xab");
  publish_error = none;
  at = 20;
}

abbrev second_works : ℕ → Answers
second_works (suc zero) = low_nonce
second_works _ = goes_through

transient_found : is_retriable "Error: server response 503 Service Unavailable" ≡ true
unfolding is_retriable is_nonce_too_low is_insufficient_funds is_transient_rpc matches contains fits
    fits_char lower
transient_found = refl

terminal_found : is_auction_terminal "execution reverted: Only open jobs cancellable" ≡ true
unfolding is_auction_terminal matches contains fits fits_char lower
terminal_found = refl

run_close-IsGood_example :
    IsGood "7" "expired_no_bids" 3
      (run_close "7" "expired_no_bids" true second_works none new_job one_open)
run_close-IsGood_example = run_close-IsGood "7" "expired_no_bids" second_works none new_job one_open

abbrev first_run : Run
first_run =
    close_expired_auction open_still true true "7" "expired_no_bids" second_works none one_open

closes : first_run.verdict ≡ closed
unfolding close_expired_auction begin_close finish_call run_close attempts Map.get
    is_auction_terminal lower is_retriable
closes = refl

-- The second call of a key joins the first.
abbrev first_called : Running
first_called = note_begun "7" (begin_close true "7" one_open) []

abbrev both_called : Running
both_called = note_begun "7" (begin_close true "7" first_called.0) first_called.1

both_reached : Reached both_called
both_reached =
    move first_called both_called
      (move (one_open, []) first_called (start one_open refl) (begins "7" one_open []))
      (begins "7" first_called.0 first_called.1)

joined : both_called.1 ≡ "7" ∷ []
unfolding note_begun begin_close Map.get
joined = refl

reached-IsSingle_example : IsSingle both_called
reached-IsSingle_example = reached-IsSingle both_called both_reached
