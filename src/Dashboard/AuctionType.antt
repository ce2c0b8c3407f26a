-- ===== src/Dashboard/AuctionType.antt =====
-- packages/dashboard/src/utils/auction-type.js: the type of an auction, its label and its colour.
use Prim.Native.Char.{Char, code}
use Prim.Native.String.{[] as blank, ◌∷◌ as cons, ◌++◌ as append}
use audit_guard.Prelude.{
  String, Bool, false, Option, [], ◌∷◌, lower, trim, is_space, is_empty, ◌==◌, ◌||◌, ◌or_else◌,
  if◌then◌else◌,
}
use audit_guard.Prelude.Map
use audit_guard.Prelude.Map.{Map}

-- A run of the characters of a test becomes one underscore; `before` says whether a run is going on.
unfoldable pub squeeze : (Char → Bool) → Bool → String → String
squeeze test before blank = blank
squeeze test before (cons c s) =
    let rest = squeeze test (test c) s in
    if test c then (if before then rest else append "_" rest) else cons c rest

abbrev pub is_gap : Char → Bool
is_gap c = is_space (code c) || code c == 45

abbrev pub is_underscore : Char → Bool
is_underscore c = code c == 95

abbrev pub raw_to_canonical : Map String
raw_to_canonical =
    ("dex", "dex")
    ∷ ("exchange", "dex")
    ∷ ("amm", "dex")
    ∷ ("lending", "lending")
    ∷ ("lending_protocol", "lending")
    ∷ ("loan", "lending")
    ∷ ("borrow", "lending")
    ∷ ("bridge", "bridge")
    ∷ ("cross_chain_bridge", "bridge")
    ∷ ("vault", "vault")
    ∷ ("yield_aggregator", "vault")
    ∷ ("aggregator", "vault")
    ∷ ("staking", "staking")
    ∷ ("staking_pool", "staking")
    ∷ ("stake", "staking")
    ∷ ("derivatives", "derivatives")
    ∷ ("derivative", "derivatives")
    ∷ ("perp", "derivatives")
    ∷ ("perps", "derivatives")
    ∷ ("perpetual", "derivatives")
    ∷ ("futures", "derivatives")
    ∷ ("options", "derivatives")
    ∷ ("oracle", "oracle")
    ∷ ("price_oracle", "oracle")
    ∷ ("governance", "governance")
    ∷ ("dao", "governance")
    ∷ ("nft", "nft")
    ∷ ("erc721", "nft")
    ∷ ("erc1155", "nft")
    ∷ ("non_fungible_token", "nft")
    ∷ ("collectible", "nft")
    ∷ ("multitoken", "nft")
    ∷ []

abbrev pub labels : Map String
labels =
    ("dex", "DEX")
    ∷ ("lending", "LENDING")
    ∷ ("bridge", "BRIDGE")
    ∷ ("vault", "VAULT")
    ∷ ("staking", "STAKING")
    ∷ ("derivatives", "DERIVATIVES")
    ∷ ("oracle", "ORACLE")
    ∷ ("governance", "GOVERNANCE")
    ∷ ("nft", "NFT")
    ∷ ("unknown", "UNKNOWN")
    ∷ []

abbrev pub colors : Map String
colors =
    ("dex", "var(--accent-amber)")
    ∷ ("lending", "var(--accent-cyan)")
    ∷ ("bridge", "var(--accent-purple)")
    ∷ ("vault", "var(--accent-green)")
    ∷ ("staking", "var(--accent-gold)")
    ∷ ("derivatives", "var(--accent-red)")
    ∷ ("oracle", "var(--accent-cyan)")
    ∷ ("governance", "var(--accent-purple)")
    ∷ ("nft", "var(--accent-gold)")
    ∷ ("unknown", "var(--accent-amber)")
    ∷ []

unfoldable pub clean : String → String
unfolding squeeze
clean s = squeeze is_underscore false (squeeze is_gap false (lower (trim s)))

unfoldable pub canonical_of : String → String
canonical_of s = if is_empty s then "unknown" else Map.get s raw_to_canonical or_else "unknown"

-- A value that is missing is the empty text.
unfoldable pub normalize_auction_type : Option String → String
unfolding clean canonical_of
normalize_auction_type raw = canonical_of (clean (raw or_else ""))

unfoldable pub auction_type_label : Option String → String
unfolding normalize_auction_type
auction_type_label raw = Map.get (normalize_auction_type raw) labels or_else "UNKNOWN"

unfoldable pub auction_type_color : Option String → String
unfolding normalize_auction_type
auction_type_color raw = Map.get (normalize_auction_type raw) colors or_else "var(--accent-amber)"
