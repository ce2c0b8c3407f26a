-- ===== src/Orchestrator/Market/Purchases.antt =====
-- What the orchestrator buys (`handleDataListing` of orchestrator/src/orchestrator.js).
use audit_guard.Prelude.{
  ℕ, ◌≤◌, ◌<◌, ◌≡◌, refl, String, Bool, true, false, Option, none, some, ◌==◌, member, ◌⊎◌, inl,
  inr, arith, Bool-cases, All,
}
use audit_guard.Orchestrator.Market.{
  Config, Listing, Answers, Step, purchase_data, succeeded, tx_failed, auto_buy, on_error,
  after_call, with_id, after_top_up, try_call, has_address, buy, if_active, buy_strictly, is_above,
  on_listing_id, handle_data_listing,
}

module _ (config : Config) (a : Answers) where
  -- The buyer is a known active agent, or that is not asked for.
  abbrev pub IsBuyer : Type 0
  IsBuyer =
      (config.strict_live ≡ false)
      ⊎ ((has_address config config.orchestrator_address ≡ true)
          × (config.has_registry ≡ true)
          × (a.is_active ≡ some true))

  abbrev pub IsWithin : ℕ → Option ℕ → Type 0
  IsWithin limit none = Unit
  IsWithin limit (some price) = price ≤ limit

  abbrev pub IsAllowed : Listing → Step → Type 0
  IsAllowed listing (purchase_data id) =
      (listing.listing_id ≡ some id)
      × (0 < id)
      × (member listing.category config.allowed_categories ≡ true)
      × IsWithin config.max_auto_buy listing.price
      × IsBuyer
  IsAllowed listing (succeeded phase) = (a.top_up_error ≡ none) × (a.call_error ≡ none)
  IsAllowed listing (tx_failed phase e) = config.strict_live ≡ true
  IsAllowed listing _ = Unit

  on_error-IsAllowed :
      (listing : Listing) (e : String) → All (IsAllowed listing) (on_error config auto_buy e)
  unfolding on_error
  on_error-IsAllowed listing e = elim (Bool-cases config.strict_live) [
    | inl strict ↦ simp strict (refl, tt)
    | inr loose ↦ simp loose tt
  ]

  call-IsAllowed :
      (listing : Listing) (id : ℕ) (o : Option String)
      → a.top_up_error ≡ none
      → a.call_error ≡ o
      → IsAllowed listing (purchase_data id)
      → All (IsAllowed listing) (after_call config auto_buy (purchase_data id) o)
  unfolding after_call
  call-IsAllowed listing id none e f h = (h, ((e, f), tt))
  call-IsAllowed listing id (some e') e f h = (h, on_error-IsAllowed listing e')

  top_up-IsAllowed :
      (listing : Listing) (id : ℕ) (o : Option String)
      → a.top_up_error ≡ o
      → IsAllowed listing (purchase_data id)
      → All (IsAllowed listing) (after_top_up config auto_buy purchase_data a (some id) o)
  unfolding after_top_up with_id
  top_up-IsAllowed listing id none e h = call-IsAllowed listing id a.call_error e refl h
  top_up-IsAllowed listing id (some e') e h = on_error-IsAllowed listing e'

  buy-IsAllowed :
      (listing : Listing) (id : ℕ)
      → IsAllowed listing (purchase_data id)
      → All (IsAllowed listing) (buy config a id)
  unfolding buy try_call
  buy-IsAllowed listing id h = (tt, top_up-IsAllowed listing id a.top_up_error refl h)

  active-IsAllowed :
      (listing : Listing) (id : ℕ) (o : Option Bool)
      → (o ≡ some true → IsAllowed listing (purchase_data id))
      → All (IsAllowed listing) (if_active config a id o)
  unfolding if_active
  active-IsAllowed listing id none h = (tt, tt)
  active-IsAllowed listing id (some true) h = buy-IsAllowed listing id (h refl)
  active-IsAllowed listing id (some false) h = (tt, tt)

  strict-IsAllowed :
      (listing : Listing) (id : ℕ)
      → (IsBuyer → IsAllowed listing (purchase_data id))
      → All (IsAllowed listing) (buy_strictly config a id)
  unfolding buy_strictly
  strict-IsAllowed listing id h =
      elim (Bool-cases (has_address config config.orchestrator_address)) [
        | inl named ↦ elim (Bool-cases config.has_registry) [
          | inl known ↦
              simp (named, known)
                (active-IsAllowed listing id a.is_active (λ e. h (inr (named, known, e))))
          | inr unknown ↦ simp (named, unknown) (tt, tt)
        ]
        | inr nameless ↦ simp nameless (tt, tt)
      ]

  id-IsAllowed :
      (listing : Listing) (o : Option ℕ)
      → listing.listing_id ≡ o
      → member listing.category config.allowed_categories ≡ true
      → IsWithin config.max_auto_buy listing.price
      → All (IsAllowed listing) (on_listing_id config a o)
  unfolding on_listing_id
  id-IsAllowed listing none e known within = tt
  id-IsAllowed listing (some id) e known within = elim (Bool-cases (id == 0)) [
    | inl zero_id ↦ simp zero_id tt
    | inr there ↦
        let allowed : IsBuyer → IsAllowed listing (purchase_data id) =
          λ buyer. (e, ground (arith, there), known, within, buyer) in
        elim (Bool-cases config.strict_live) [
          | inl strict ↦ simp (there, strict) (strict-IsAllowed listing id allowed)
          | inr loose ↦ simp (there, loose) (buy-IsAllowed listing id (allowed (inl loose)))
        ]
  ]

  above-IsWithin : (limit : ℕ) (o : Option ℕ) → is_above config limit o ≡ false → IsWithin limit o
  unfolding is_above
  above-IsWithin limit none e = tt
  above-IsWithin limit (some price) e = ground (arith, e)

  -- Whatever listing comes, data is bought only if its category is allowed, its price is within the limit
  -- or missing, its id is above zero, and, where the orchestrator is strictly live, the buyer is a valid
  -- address that the registry calls active; a purchase is reported only if it went through, and a failure
  -- only where the orchestrator is strictly live.
  pub handle_data_listing-IsAllowed :
      (listing : Listing) → All (IsAllowed listing) (handle_data_listing config a listing)
  unfolding handle_data_listing
  handle_data_listing-IsAllowed listing =
      elim (Bool-cases (member listing.category config.allowed_categories)) [
        | inl known ↦ elim (Bool-cases (is_above config config.max_auto_buy listing.price)) [
          | inl above ↦ simp (known, above) tt
          | inr within ↦
              simp (known, within)
                (id-IsAllowed listing listing.listing_id refl known
                  (above-IsWithin config.max_auto_buy listing.price within))
        ]
        | inr unknown ↦ simp unknown tt
      ]
