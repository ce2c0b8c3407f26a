-- ===== src/Orchestrator/TopUp.antt =====
-- The top-up of the orchestrator's account (orchestrator/src/orchestrator.js: `toHexPrivateKey`,
-- `getTopupDonorWallets`, `ensureOrchestratorOperationalHbar`). Amounts are in wei. The wallet of a
-- private key, the balances and whether a transfer goes through are arguments.
use Prim.Native.Char.{Char, code}
use Prim.Native.String.{◌∷◌ as cons, [] as blank}
use audit_guard.Prelude.{
  ℕ, suc, String, Bool, false, Option, none, some, trim, leb, ◌==◌, ◌&&◌, ◌||◌, if◌then◌else◌,
  ◌or_else◌, is_empty,
}

unfoldable pub is_quote : Char → Bool
is_quote c = code c == 34 || code c == 39

unfoldable pub drop_first_quote : String → String
unfolding is_quote
drop_first_quote blank = blank
drop_first_quote (cons c s) = if is_quote c then s else cons c s

unfoldable pub drop_last_quote : String → String
unfolding is_quote
drop_last_quote blank = blank
drop_last_quote (cons c s) =
    let rest = drop_last_quote s in if is_empty s && is_quote c then blank else cons c rest

unfoldable pub strip_prefix : String → String
strip_prefix (cons a (cons b s)) = if code a == 48 && code b == 120 then s else cons a (cons b s)
strip_prefix s = s

unfoldable pub is_hex : Char → Bool
is_hex c =
    (leb 48 (code c) && leb (code c) 57)
    || (leb 97 (code c) && leb (code c) 102)
    || (leb 65 (code c) && leb (code c) 70)

unfoldable pub count_hex : String → Option ℕ
unfolding is_hex
count_hex blank = some 0
count_hex (cons c s) = elim (count_hex s) [
  | none ↦ none
  | some n ↦ if is_hex c then some (suc n) else none
]

unfoldable pub is_key : Option ℕ → Bool
is_key none = false
is_key (some n) = n == 64

-- The 64 digits of a private key. The source puts 0x before them.
unfoldable pub to_hex_private_key : Option String → Option String
unfolding drop_first_quote drop_last_quote strip_prefix count_hex is_key
to_hex_private_key raw =
    let stripped = strip_prefix (drop_last_quote (drop_first_quote (trim (raw or_else "")))) in
    if is_key (count_hex stripped) then some stripped else none
