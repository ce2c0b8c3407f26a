-- ===== src/Orchestrator/Market/Examples.antt =====
-- A listing that a strictly live orchestrator buys.
use audit_guard.Prelude.{ℕ, ◌≡◌, refl, true, none, some, List, [], ◌∷◌, ◌===◌, All}
use audit_guard.Orchestrator.Market.{
  Config, Listing, Answers, Step, purchase_data, handle_data_listing,
}
use audit_guard.Orchestrator.Market.Purchases.{IsAllowed, handle_data_listing-IsAllowed}

abbrev config : Config
config = record {
  allowed_categories = "vulnerability" ∷ [];
  max_auto_buy = 100;
  strict_live = true;
  orchestrator_address = some "0xa";
  has_registry = true;
  is_address = λ s. s === "0xa";
  sub_payment = 20;
}

abbrev answers : Answers
answers = record {
  is_active = some true;
  top_up_error = none;
  call_error = none;
  id_error = "bad id";
}

abbrev listing : Listing
listing = record { listing_id = some 4; category = "vulnerability"; price = some 90 }

handle_data_listing-IsAllowed_example :
    All (IsAllowed config answers listing) (handle_data_listing config answers listing)
handle_data_listing-IsAllowed_example = handle_data_listing-IsAllowed config answers listing

-- It is bought; so is one without a price.
abbrev bought : List Step → List ℕ
bought [] = []
bought (purchase_data id ∷ steps) = id ∷ bought steps
bought (step ∷ steps) = bought steps

listing_is_bought : bought (handle_data_listing config answers listing) ≡ 4 ∷ []
unfolding handle_data_listing
listing_is_bought = refl

listing_without_price_is_bought :
    bought (handle_data_listing config answers (record listing { price = none })) ≡ 4 ∷ []
unfolding handle_data_listing
listing_without_price_is_bought = refl
