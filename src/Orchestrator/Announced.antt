-- ===== src/Orchestrator/Announced.antt =====
-- When winners are announced (`publishWinnerSelectedAuditLog` of orchestrator/src/orchestrator.js).
use mathlib.Core.Path.{subst}
use mathlib.Core.List.{foldl}
use audit_guard.Prelude.{
  ℕ, ◌-◌, ◌≤◌, String, ◌≡◌, refl, Bool, true, false, Option, none, some, List, [], ◌∷◌, map, lower,
  le→ltb, le→leb, ◌===◌, is_empty, member, truthy, arith, Bool-cases, inl, inr, All, IsDistinct,
  All-snoc, map-snoc, IsDistinct-snoc, eq_refl, ◌∙◌,
}
use audit_guard.Prelude.Map
use audit_guard.Prelude.Map.{Map}
use audit_guard.Orchestrator.Address.{normalize_address, valid}
use audit_guard.Orchestrator.Fingerprint.{Same, fingerprint-Same}
use audit_guard.Orchestrator.Winners.{
  add_winner, normalize_winner_addresses, fingerprint, Entry, Cache, Announcement, Extras,
  is_expired, prune_cache, is_repeat, new_entry, announce, publish_winner_selected,
}

IsRecent : ℕ → ℕ → String → Entry → Type 0
IsRecent window now key e = now - e.published_at ≤ window

prune-IsRecent :
    (window now : ℕ) (m : Cache) → Map.AllEntries (IsRecent window now) (prune_cache window now m)
unfolding prune_cache is_expired IsRecent
prune-IsRecent window now [] = tt
prune-IsRecent window now ((k, e) ∷ m) = elim (Bool-cases (is_expired window now e)) [
  | inl old ↦ rw old (prune-IsRecent window now m)
  | inr recent ↦ rw recent (ground arith, prune-IsRecent window now m)
]

get-prune :
    (window now : ℕ) (k : String) (e : Entry) (m : Cache)
    → Map.get k m ≡ some e
    → is_expired window now e ≡ false
    → Map.get k (prune_cache window now m) ≡ some e
unfolding prune_cache Map.get
get-prune window now k e [] here recent = here
get-prune window now k e ((j, d) ∷ m) here recent = elim (Bool-cases (is_expired window now d)) [
  | inl old ↦ elim (Bool-cases (j === k)) [
    | inl same ↦ cc
    | inr other ↦ simp old (get-prune window now k e m (rw other at here) recent)
  ]
  | inr kept ↦ elim (Bool-cases (j === k)) [
    | inl same ↦ simp (kept, same) (rw same at here)
    | inr other ↦ simp (kept, other) (get-prune window now k e m (rw other at here) recent)
  ]
]

recent-is_expired :
    (window now : ℕ) (e : Entry) → now - e.published_at ≤ window → is_expired window now e ≡ false
unfolding is_expired
recent-is_expired window now e h = le→ltb window (now - e.published_at) h

repeats :
    (window now : ℕ) (print : String) (tx : Option String) (e : Entry)
    → e.winners_fingerprint ≡ print
    → now - e.published_at ≤ window
    → is_repeat window now print tx (some e) ≡ true
unfolding is_repeat
repeats window now print tx e same recent =
    let old = le→leb (now - e.published_at) window recent in
    rw same (simp (old, eq_refl print) refl)

module _ (window : ℕ) (key : String) where
  -- An entry of the cache that is not older than the window, for the same winners, stops another
  -- announcement.
  announce-cached :
      (now : ℕ) (cache : Cache) (extras : Extras) (ws : List String) (e : Entry)
      → Map.get key cache ≡ some e
      → e.winners_fingerprint ≡ fingerprint ws
      → now - e.published_at ≤ window
      → (announce window now cache key extras ws).1 ≡ none
  unfolding announce
  announce-cached now cache extras [] e here same recent = refl
  announce-cached now cache extras (w ∷ ws) e here same recent =
      let kept = get-prune window now key e cache here (recent-is_expired window now e recent) in
      let stops = repeats window now (fingerprint (w ∷ ws)) (truthy extras.tx_hash) e same recent in
      rw kept (rw stops refl)

  announced-cache :
      (now : ℕ) (cache : Cache) (extras : Extras) (ws : List String) (a : Announcement)
      → (announce window now cache key extras ws).1 ≡ some a
      → Map.get key (announce window now cache key extras ws).0
        ≡ some (new_entry now ws (truthy extras.tx_hash))
  unfolding announce
  announced-cache now cache extras [] a e = cc
  announced-cache now cache extras (w ∷ ws) a e =
      let repeat =
        is_repeat window now (fingerprint (w ∷ ws)) (truthy extras.tx_hash)
          (Map.get key (prune_cache window now cache)) in
      elim (Bool-cases repeat) [
        | inl stops ↦ cc
        | inr sends ↦ simp sends (
            Map.get-set_self key (new_entry now (w ∷ ws) (truthy extras.tx_hash))
              (prune_cache window now cache))
      ]

-- A call of `publishWinnerSelectedAuditLog`.
pub record Call : Type 0 where
  pub at : ℕ
  pub job : String
  pub extras : Extras
  pub winners : List (Option String)

unfoldable pub publish_all : (String → Bool) → ℕ → List Call → Cache → Cache
publish_all is_address window [] cache = cache
publish_all is_address window (c ∷ cs) cache =
    publish_all is_address window cs
      (publish_winner_selected is_address window c.at cache c.job c.extras c.winners).0

-- The calls are for other jobs, and not later than so.
abbrev pub AreOther : String → ℕ → List Call → Type 0
AreOther key later [] = Unit
AreOther key later (c ∷ cs) = ((c.job === key) ≡ false) × (c.at ≤ later) × AreOther key later cs

module _ (window : ℕ) (key : String) (e : Entry) where
  other-announce :
      (at : ℕ) (job : String) (cache : Cache) (extras : Extras) (ws : List String)
      → (job === key) ≡ false
      → at - e.published_at ≤ window
      → Map.get key cache ≡ some e
      → Map.get key (announce window at cache job extras ws).0 ≡ some e
  unfolding announce
  other-announce at job cache extras [] other recent here = here
  other-announce at job cache extras (w ∷ ws) other recent here =
      let kept = get-prune window at key e cache here (recent-is_expired window at e recent) in
      let tx = truthy extras.tx_hash in
      elim (Bool-cases (
        is_repeat window at (fingerprint (w ∷ ws)) tx
          (Map.get job (prune_cache window at cache)))) [
            | inl stops ↦ simp stops kept
            | inr sends ↦ simp sends (
                Map.get-set job key (new_entry at (w ∷ ws) tx) (prune_cache window at cache)
                ∙ simp other kept)
          ]

  other-publish_all :
      (is_address : String → Bool) (later : ℕ) (cs : List Call) (cache : Cache)
      → later - e.published_at ≤ window
      → AreOther key later cs
      → Map.get key cache ≡ some e
      → Map.get key (publish_all is_address window cs cache) ≡ some e
  unfolding publish_all publish_winner_selected
  other-publish_all is_address later [] cache recent others here = here
  other-publish_all is_address later (c ∷ cs) cache recent (other, before, others) here =
      other-publish_all is_address later cs
        (announce window c.at cache c.job c.extras
          (normalize_winner_addresses is_address c.winners)).0
        recent others
        (other-announce c.at c.job cache c.extras (normalize_winner_addresses is_address c.winners)
          other (omega (arith, before, recent)) here)

-- Winners that were announced for a job are not announced again for it within the window, in whatever
-- order or case their valid addresses are then given, with whatever transaction, and whatever calls for
-- other jobs come in between.
pub publish_twice :
    (is_address : String → Bool) (window now later : ℕ) (cache : Cache) (key : String)
    → (extras later_extras : Extras) (winners later_winners : List (Option String))
      (a : Announcement) (between : List Call)
    → (publish_winner_selected is_address window now cache key extras winners).1 ≡ some a
    → Same
        (map lower (normalize_winner_addresses is_address winners))
        (map lower (normalize_winner_addresses is_address later_winners))
    → later - now ≤ window
    → AreOther key later between
    → (publish_winner_selected is_address window later
        (publish_all is_address window between
          (publish_winner_selected is_address window now cache key extras winners).0)
        key
        later_extras
        later_winners).1
      ≡ none
unfolding publish_winner_selected new_entry
publish_twice is_address window now later cache key extras later_extras ws later_ws a between e same
      near others =
    let first = normalize_winner_addresses is_address ws in
    let second = normalize_winner_addresses is_address later_ws in
    let entry = new_entry now first (truthy extras.tx_hash) in
    let kept =
      other-publish_all window key entry is_address later between
        (announce window now cache key extras first).0 near others
        (announced-cache window key now cache extras first a e) in
    announce-cached window key later _ later_extras second entry kept
      (fingerprint-Same first second same) near

-- The winners kept have different lower cases, those seen, and are valid addresses.
module _ (is_address : String → Bool) where
  abbrev pub IsKept : List String × List String → Type 0
  IsKept (seen, kept) =
      (seen ≡ map lower kept) × IsDistinct seen × All (λ a. is_address a ≡ true) kept

  normalize-is_address :
      (value : Option String)
      → is_empty (normalize_address is_address value) ≡ false
      → is_address (normalize_address is_address value) ≡ true
  unfolding normalize_address valid
  normalize-is_address none e = cc
  normalize-is_address (some t) e = elim (Bool-cases (is_empty t)) [
    | inl blank ↦ cc
    | inr text ↦
        simp text elim (Bool-cases (is_address t)) [ inl good ↦ simp good refl | inr bad ↦ cc ]
  ]

  add_winner-IsKept :
      (s : List String × List String) (w : Option String)
      → IsKept s
      → IsKept (add_winner is_address s w)
  unfolding add_winner
  add_winner-IsKept (seen, kept) w h =
      let address = normalize_address is_address w in
      elim (Bool-cases (is_empty address)) [
        | inl blank ↦ simp blank h
        | inr text ↦ simp text elim (Bool-cases (member (lower address) seen)) [
          | inl old ↦ simp old h
          | inr new ↦ simp new (
            rw (map-snoc lower address kept, h.0) refl,
            IsDistinct-snoc (lower address) seen h.1 new,
            All-snoc (λ a. is_address a ≡ true) address kept h.2 (normalize-is_address w text),
          )
        ]
      ]

  add_winners-IsKept :
      (ws : List (Option String)) (s : List String × List String)
      → IsKept s
      → IsKept (foldl (add_winner is_address) s ws)
  add_winners-IsKept [] s h = h
  add_winners-IsKept (w ∷ ws) s h =
      add_winners-IsKept ws (add_winner is_address s w) (add_winner-IsKept s w h)

  -- The winners announced are valid addresses, no two of which differ only in case.
  pub normalize_winner_addresses-IsDistinct :
      (ws : List (Option String))
      → IsDistinct (map lower (normalize_winner_addresses is_address ws))
        × All (λ a. is_address a ≡ true) (normalize_winner_addresses is_address ws)
  unfolding normalize_winner_addresses
  normalize_winner_addresses-IsDistinct ws =
      let kept = add_winners-IsKept ws ([], []) (refl, tt, tt) in
      (subst IsDistinct kept.0 kept.1, kept.2)
