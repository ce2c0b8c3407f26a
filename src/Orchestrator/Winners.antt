-- ===== src/Orchestrator/Winners.antt =====
-- The announcements of winners (orchestrator/src/orchestrator.js: `normalizeWinnerAddresses`,
-- `buildWinnerFingerprint`, `pruneWinnerAnnouncementCache`, `publishWinnerSelectedAuditLog`). Texts
-- are sorted by their characters' numbers, which for the ASCII addresses is JavaScript's order.
use Prim.Native.Nat.{lt, eq, gt}
use Prim.Native.String.{◌++◌ as append, compare}
use mathlib.Core.List.{foldl}
use audit_guard.Prelude.{
  ℕ, ◌-◌, String, Bool, true, false, Option, none, some, List, [], ◌∷◌, ◌++◌, map, lower, ltb, leb,
  ◌===◌, ◌&&◌, ◌||◌, if◌then◌else◌, is_empty, not, member, truthy,
}
use audit_guard.Prelude.Map
use audit_guard.Prelude.Map.{Map}
use audit_guard.Orchestrator.Address.{normalize_address}

module _ (is_address : String → Bool) where
  -- One turn of the loop: the keys seen, and the addresses kept.
  unfoldable pub add_winner : List String × List String → Option String → List String × List String
  add_winner (seen, kept) winner =
      let address = normalize_address is_address winner in
      if is_empty address || member (lower address) seen
      then (seen, kept)
      else (seen ++ lower address ∷ [], kept ++ address ∷ [])

  -- An argument that is no array is the empty list.
  unfoldable pub normalize_winner_addresses : List (Option String) → List String
  unfolding add_winner
  normalize_winner_addresses winners = (foldl add_winner ([], []) winners).1

unfoldable pub text_leb : String → String → Bool
text_leb a b = elim (compare a b) [ lt ↦ true | eq ↦ true | gt ↦ false ]

unfoldable pub insert_sorted : String → List String → List String
unfolding text_leb
insert_sorted x [] = x ∷ []
insert_sorted x (y ∷ ys) =
    let rest = insert_sorted x ys in if text_leb x y then x ∷ y ∷ ys else y ∷ rest

unfoldable pub sort : List String → List String
unfolding insert_sorted
sort [] = []
sort (x ∷ xs) = insert_sorted x (sort xs)

unfoldable pub join_rest : List String → String
join_rest [] = ""
join_rest (x ∷ xs) = append "|" (append x (join_rest xs))

unfoldable pub join : List String → String
unfolding join_rest
join [] = ""
join (x ∷ xs) = append x (join_rest xs)

unfoldable pub fingerprint : List String → String
unfolding sort join
fingerprint addresses = join (sort (map lower addresses))

unfoldable pub build_winner_fingerprint : (String → Bool) → List (Option String) → String
unfolding normalize_winner_addresses fingerprint
build_winner_fingerprint is_address winners =
    fingerprint (normalize_winner_addresses is_address winners)

pub record Entry : Type 0 where
  pub winners_fingerprint : String
  pub tx_hash : Option String
  pub published_at : ℕ

abbrev pub Cache : Type 0
Cache = Map Entry

-- The WINNER_SELECTED message's own fields.
pub record Announcement : Type 0 where
  pub job_id : String
  pub winners : List String
  pub total_escrowed : Option ℕ
  pub platform_fee : Option ℕ
  pub tx_hash : Option String

pub record Extras : Type 0 where
  pub tx_hash : Option String
  pub total_escrowed : Option ℕ
  pub platform_fee : Option ℕ

unfoldable pub is_expired : ℕ → ℕ → Entry → Bool
is_expired window now e = ltb window (now - e.published_at)

unfoldable pub prune_cache : ℕ → ℕ → Cache → Cache
unfolding is_expired
prune_cache window now [] = []
prune_cache window now ((k, e) ∷ m) =
    let rest = prune_cache window now m in if is_expired window now e then rest else (k, e) ∷ rest

unfoldable pub same_tx : Option String → Option String → Bool
same_tx (some a) (some b) = not (is_empty b) && lower b === lower a
same_tx _ _ = false

unfoldable pub is_repeat : ℕ → ℕ → String → Option String → Option Entry → Bool
unfolding same_tx
is_repeat window now print tx none = false
is_repeat window now print tx (some e) =
    leb (now - e.published_at) window && (e.winners_fingerprint === print || same_tx tx e.tx_hash)

unfoldable pub lower_tx : Option String → Option String
lower_tx none = none
lower_tx (some tx) = some (lower tx)

unfoldable pub new_entry : ℕ → List String → Option String → Entry
unfolding fingerprint lower_tx
new_entry now addresses tx = record {
  winners_fingerprint = fingerprint addresses;
  tx_hash = lower_tx tx;
  published_at = now;
}

unfoldable pub announcement : String → List String → Extras → Announcement
announcement key addresses extras = record {
  job_id = key;
  winners = addresses;
  total_escrowed = extras.total_escrowed;
  platform_fee = extras.platform_fee;
  tx_hash = truthy extras.tx_hash;
}

-- The cache afterwards, and the message if one is sent.
unfoldable pub announce :
    ℕ → ℕ → Cache → String → Extras → List String → Cache × Option Announcement
unfolding prune_cache is_repeat new_entry announcement fingerprint
announce window now cache key extras [] = (cache, none)
announce window now cache key extras (w ∷ ws) =
    let pruned = prune_cache window now cache in
    let tx = truthy extras.tx_hash in
    if is_repeat window now (fingerprint (w ∷ ws)) tx (Map.get key pruned)
    then (pruned, none)
    else (Map.set key (new_entry now (w ∷ ws) tx) pruned, some (announcement key (w ∷ ws) extras))

unfoldable pub publish_winner_selected :
    (String → Bool)
    → ℕ
    → ℕ
    → Cache
    → String
    → Extras
    → List (Option String)
    → Cache × Option Announcement
unfolding normalize_winner_addresses announce
publish_winner_selected is_address window now cache key extras winners =
    announce window now cache key extras (normalize_winner_addresses is_address winners)
