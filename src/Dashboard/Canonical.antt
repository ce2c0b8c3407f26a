-- ===== src/Dashboard/Canonical.antt =====
-- The canonical types of packages/dashboard/src/utils/auction-type.js.
use audit_guard.Prelude.{
  String, ◌≡◌, refl, true, Option, none, some, is_empty, ◌or_else◌, is_some, lower, trim, inl, inr,
  Bool-cases,
}
use audit_guard.Prelude.Map
use audit_guard.Prelude.Map.{Map}
use audit_guard.Dashboard.AuctionType.{
  squeeze, raw_to_canonical, labels, colors, clean, canonical_of, normalize_auction_type,
}

-- A type that is its own canonical type, and has a label and a colour.
abbrev pub IsCanonical : String → Type 0
IsCanonical t =
    (normalize_auction_type (some t) ≡ t)
    × (is_some (Map.get t labels) ≡ true)
    × (is_some (Map.get t colors) ≡ true)

dex : IsCanonical "dex"
unfolding normalize_auction_type clean canonical_of squeeze lower trim Map.get
dex = (refl, refl, refl)

lending : IsCanonical "lending"
unfolding normalize_auction_type clean canonical_of squeeze lower trim Map.get
lending = (refl, refl, refl)

bridge : IsCanonical "bridge"
unfolding normalize_auction_type clean canonical_of squeeze lower trim Map.get
bridge = (refl, refl, refl)

vault : IsCanonical "vault"
unfolding normalize_auction_type clean canonical_of squeeze lower trim Map.get
vault = (refl, refl, refl)

staking : IsCanonical "staking"
unfolding normalize_auction_type clean canonical_of squeeze lower trim Map.get
staking = (refl, refl, refl)

derivatives : IsCanonical "derivatives"
unfolding normalize_auction_type clean canonical_of squeeze lower trim Map.get
derivatives = (refl, refl, refl)

oracle : IsCanonical "oracle"
unfolding normalize_auction_type clean canonical_of squeeze lower trim Map.get
oracle = (refl, refl, refl)

governance : IsCanonical "governance"
unfolding normalize_auction_type clean canonical_of squeeze lower trim Map.get
governance = (refl, refl, refl)

nft : IsCanonical "nft"
unfolding normalize_auction_type clean canonical_of squeeze lower trim Map.get
nft = (refl, refl, refl)

unknown : IsCanonical "unknown"
unfolding normalize_auction_type clean canonical_of squeeze lower trim Map.get
unknown = (refl, refl, refl)

table-IsCanonical : Map.AllEntries (λ k t. IsCanonical t) raw_to_canonical
table-IsCanonical = (
  dex,
  (
    dex,
    (
      dex,
      (
        lending,
        (
          lending,
          (
            lending,
            (
              lending,
              (
                bridge,
                (
                  bridge,
                  (
                    vault,
                    (
                      vault,
                      (
                        vault,
                        (
                          staking,
                          (
                            staking,
                            (
                              staking,
                              (
                                derivatives,
                                (
                                  derivatives,
                                  (
                                    derivatives,
                                    (
                                      derivatives,
                                      (
                                        derivatives,
                                        (
                                          derivatives,
                                          (
                                            derivatives,
                                            (
                                              oracle,
                                              (
                                                oracle,
                                                (
                                                  governance,
                                                  (
                                                    governance,
                                                    (nft, (nft, (nft, (nft, (nft, (nft, tt)))))),
                                                  ),
                                                ),
                                              ),
                                            ),
                                          ),
                                        ),
                                      ),
                                    ),
                                  ),
                                ),
                              ),
                            ),
                          ),
                        ),
                      ),
                    ),
                  ),
                ),
              ),
            ),
          ),
        ),
      ),
    ),
  ),
)

entry-IsCanonical :
    (s : String) (o : Option String)
    → Map.get s raw_to_canonical ≡ o
    → IsCanonical (o or_else "unknown")
entry-IsCanonical s none e = unknown
entry-IsCanonical s (some t) e =
    Map.get-AllEntries (λ k t'. IsCanonical t') s t raw_to_canonical table-IsCanonical e

canonical_of-IsCanonical : (s : String) → IsCanonical (canonical_of s)
unfolding canonical_of
canonical_of-IsCanonical s = elim (Bool-cases (is_empty s)) [
  | inl nothing ↦ simp nothing unknown
  | inr text ↦ simp text (entry-IsCanonical s (Map.get s raw_to_canonical) refl)
]

-- Whatever an auction's type is called, its normalised type is its own normalised type and has a label
-- and a colour, so neither look-up falls back.
pub normalize_auction_type-IsCanonical :
    (raw : Option String) → IsCanonical (normalize_auction_type raw)
normalize_auction_type-IsCanonical raw =
    unfold normalize_auction_type in canonical_of-IsCanonical (clean (raw or_else ""))
