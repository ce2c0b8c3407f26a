-- ===== src/Orchestrator/Donors.antt =====
-- `getTopupDonorWallets` and `ensureOrchestratorOperationalHbar` of orchestrator/src/orchestrator.js.
-- Amounts are in wei. The wallet of a private key, the balances and whether a transfer goes through
-- are arguments.
use mathlib.Core.List.{foldl}
use audit_guard.Prelude.{
  ℕ, ◌-◌, String, Bool, true, false, Option, none, some, List, [], ◌∷◌, ◌++◌, lower, ltb, leb, ◌==◌,
  ◌===◌, ◌||◌, ◌&&◌, not, if◌then◌else◌, member, max,
}
use audit_guard.Orchestrator.TopUp.{to_hex_private_key}

-- One turn of the loop over the keys: the addresses seen, in lower case, and the donors.
unfoldable pub add_donor :
    (String → String)
    → String
    → List String × List String
    → Option String
    → List String × List String
add_donor address_of own (seen, donors) none = (seen, donors)
add_donor address_of own (seen, donors) (some key) =
    let address = lower (address_of key) in
    if address === lower own || member address seen
    then (seen, donors)
    else (seen ++ address ∷ [], donors ++ address_of key ∷ [])

unfoldable pub add_raw :
    (String → String)
    → String
    → List String × List String
    → Option String
    → List String × List String
unfolding to_hex_private_key add_donor
add_raw address_of own s raw = add_donor address_of own s (to_hex_private_key raw)

-- The donors, by address.
unfoldable pub donor_wallets : (String → String) → String → List (Option String) → List String
unfolding add_raw
donor_wallets address_of own keys = (foldl (add_raw address_of own) ([], []) keys).1

pub record Transfer : Type 0 where
  pub donor : String
  pub amount : ℕ

-- A run of the loop over the donors: the transfers, and whether a call threw.
pub record Transfers : Type 0 where
  pub sent : List Transfer
  pub failed : Bool

unfoldable pub stop : Transfers
stop = record { sent = []; failed = false }

unfoldable pub throw : Transfers
throw = record { sent = []; failed = true }

unfoldable pub before : Transfer → Transfers → Transfers
before t ts = record ts { sent = t ∷ ts.sent }

module _ (balance_of : String → Option ℕ) (goes_through : Transfer → Bool) (reserve : ℕ) where
  unfoldable pub spendable : ℕ → ℕ
  spendable balance = if leb balance reserve then 0 else balance - reserve

  unfoldable pub amount_of : ℕ → ℕ → ℕ
  unfolding spendable
  amount_of remaining balance =
      if ltb (spendable balance) remaining then spendable balance else remaining

  -- What one donor sends: nothing, an amount, or a call that throws (`none`).
  unfoldable pub offer : ℕ → Option ℕ → Option ℕ
  unfolding amount_of
  offer remaining none = none
  offer remaining (some balance) = some (amount_of remaining balance)

  -- A transfer of 0 is left out. `rest` is the loop over the other donors.
  unfoldable pub send : (ℕ → Transfers) → ℕ → String → Option ℕ → Transfers
  unfolding throw before
  send rest remaining d none = throw
  send rest remaining d (some n) =
      if n == 0
      then rest remaining
      else if goes_through (record { donor = d; amount = n })
      then before (record { donor = d; amount = n }) (rest (remaining - n))
      else throw

  unfoldable pub collect : List String → ℕ → Transfers
  unfolding stop offer send
  collect [] remaining = stop
  collect (d ∷ ds) remaining =
      let rest = collect ds in
      if remaining == 0 then stop else send rest remaining d (offer remaining (balance_of d))

pub record Limits : Type 0 where
  pub min_wei : ℕ
  pub target_wei : ℕ
  pub donor_reserve_wei : ℕ
  pub check_interval_ms : ℕ
  pub auto_topup : Bool

pub data Verdict : Type 0 where
  not_checked enough topped_up low low_after_topup call_failed : Verdict

pub record TopUpRun : Type 0 where
  pub last_check_at : ℕ
  pub sent : List Transfer
  pub verdict : Verdict

-- The account after the transfers: its balance is read again.
unfoldable pub finish : Limits → ℕ → (List Transfer → Option ℕ) → Transfers → TopUpRun
finish limits now_ms balance_after ts =
    if ts.failed
    then record { last_check_at = now_ms; sent = ts.sent; verdict = call_failed }
    else elim (balance_after ts.sent) [
      | none ↦ record { last_check_at = now_ms; sent = ts.sent; verdict = call_failed }
      | some b ↦ record {
        last_check_at = now_ms;
        sent = ts.sent;
        verdict = if ltb b limits.min_wei then low_after_topup else topped_up;
      }
    ]

unfoldable pub target_of : Limits → ℕ
target_of limits = max limits.target_wei limits.min_wei

unfoldable pub top_up :
    (String → Option ℕ)
    → (Transfer → Bool)
    → (List Transfer → Option ℕ)
    → Limits
    → ℕ
    → List String
    → Option ℕ
    → TopUpRun
unfolding collect finish target_of
top_up balance_of goes_through balance_after limits now_ms donors none = record {
  last_check_at = now_ms;
  sent = [];
  verdict = call_failed;
}
top_up balance_of goes_through balance_after limits now_ms donors (some balance) =
    if leb limits.min_wei balance
    then record { last_check_at = now_ms; sent = []; verdict = enough }
    else if not limits.auto_topup
    then record { last_check_at = now_ms; sent = []; verdict = low }
    else finish limits now_ms balance_after (
        collect balance_of goes_through limits.donor_reserve_wei donors
          (target_of limits - balance))

-- `ensureOrchestratorOperationalHbar` with a provider and an address. `balance_after []` is the
-- balance before any transfer.
unfoldable pub ensure_operational :
    (String → Option ℕ)
    → (Transfer → Bool)
    → (List Transfer → Option ℕ)
    → Limits
    → List String
    → ℕ
    → ℕ
    → Bool
    → TopUpRun
unfolding top_up
ensure_operational balance_of goes_through balance_after limits donors last now_ms force =
    if not force && ltb (now_ms - last) limits.check_interval_ms
    then record { last_check_at = last; sent = []; verdict = not_checked }
    else top_up balance_of goes_through balance_after limits now_ms donors (balance_after [])
