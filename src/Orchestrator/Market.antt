-- ===== src/Orchestrator/Market.antt =====
-- The data market and the sub-auctions of orchestrator/src/orchestrator.js: `handleDataListing`,
-- `handleSubAuctionRequest` and `handleSubResult`. Prices are in units of the token's least amount, an id
-- is `none` where it is no number for the chain, and a call's answer is the text of its error, if it
-- throws. That the audit log takes each message is assumed.
use audit_guard.Prelude.{
  ℕ, String, Bool, true, false, Option, none, some, List, [], ◌∷◌, ◌++◌, ltb, ◌==◌, not,
  if◌then◌else◌, ◌or_else◌, member, is_empty,
}
pub mod Purchases
mod Examples

pub record Config : Type 0 where
  pub allowed_categories : List String
  pub max_auto_buy : ℕ
  pub strict_live : Bool
  pub orchestrator_address : Option String
  pub has_registry : Bool
  pub is_address : String → Bool
  pub sub_payment : ℕ

pub record Listing : Type 0 where
  pub listing_id : Option ℕ
  pub category : String
  pub price : Option ℕ

pub record SubRequest : Type 0 where
  pub parent_id : Option ℕ
  pub task_type : Option String
  pub payment : Option ℕ

-- `is_active` is `none` where the registry throws.
pub record Answers : Type 0 where
  pub is_active : Option Bool
  pub top_up_error : Option String
  pub call_error : Option String
  pub id_error : String

pub data Reason : Type 0 where
  invalid_buyer_address agent_registry_unavailable inactive_buyer_agent : Reason

pub data Phase : Type 0 where
  auto_buy create_sub accept_sub : Phase

pub data Step : Type 0 where
  purchase_skipped : Reason → Step
  top_up : Phase → Step
  purchase_data : ℕ → Step
  create_sub_auction : ℕ → String → ℕ → Step
  accept_sub_result : ℕ → Step
  succeeded : Phase → Step
  tx_failed : Phase → String → Step
  -- the handler itself throws
  throws : Step

module _ (config : Config) where
  -- The `catch` block.
  unfoldable pub on_error : Phase → String → List Step
  on_error phase e = if config.strict_live then tx_failed phase e ∷ [] else []

  unfoldable pub after_call : Phase → Step → Option String → List Step
  unfolding on_error
  after_call phase call none = call ∷ succeeded phase ∷ []
  after_call phase call (some e) = call ∷ on_error phase e

  unfoldable pub with_id : Phase → (ℕ → Step) → Answers → Option ℕ → List Step
  unfolding on_error after_call
  with_id phase call a none = on_error phase a.id_error
  with_id phase call a (some id) = after_call phase (call id) a.call_error

  unfoldable pub after_top_up : Phase → (ℕ → Step) → Answers → Option ℕ → Option String → List Step
  unfolding on_error with_id
  after_top_up phase call a id none = with_id phase call a id
  after_top_up phase call a id (some e) = on_error phase e

  -- The `try` block that the handlers share: a top-up, then the call on the chain.
  unfoldable pub try_call : Phase → (ℕ → Step) → Answers → Option ℕ → List Step
  unfolding after_top_up
  try_call phase call a id = top_up phase ∷ after_top_up phase call a id a.top_up_error

  unfoldable pub has_address : Option String → Bool
  has_address none = false
  has_address (some s) = if is_empty s then false else config.is_address s

  unfoldable pub buy : Answers → ℕ → List Step
  unfolding try_call
  buy a id = try_call auto_buy purchase_data a (some id)

  unfoldable pub if_active : Answers → ℕ → Option Bool → List Step
  unfolding buy
  if_active a id none = throws ∷ []
  if_active a id (some active) =
      if active then buy a id else purchase_skipped inactive_buyer_agent ∷ []

  unfoldable pub buy_strictly : Answers → ℕ → List Step
  unfolding if_active has_address
  buy_strictly a id =
      if not (has_address config.orchestrator_address)
      then purchase_skipped invalid_buyer_address ∷ []
      else if not config.has_registry
      then purchase_skipped agent_registry_unavailable ∷ []
      else if_active a id a.is_active

  -- `price > max`, which does not hold of a missing price.
  unfoldable pub is_above : ℕ → Option ℕ → Bool
  is_above max none = false
  is_above max (some price) = ltb max price

  unfoldable pub on_listing_id : Answers → Option ℕ → List Step
  unfolding buy buy_strictly
  on_listing_id a none = []
  on_listing_id a (some id) =
      if id == 0 then [] else if config.strict_live then buy_strictly a id else buy a id

  unfoldable pub handle_data_listing : Answers → Listing → List Step
  unfolding is_above on_listing_id
  handle_data_listing a listing =
      if not (member listing.category config.allowed_categories)
      then []
      else if is_above config.max_auto_buy listing.price
      then []
      else on_listing_id a listing.listing_id

  unfoldable pub handle_sub_auction_request : Answers → SubRequest → List Step
  unfolding try_call
  handle_sub_auction_request a request =
      let task : String = request.task_type or_else "dependency_analysis" in
      try_call create_sub
        (λ id. create_sub_auction id task (request.payment or_else config.sub_payment)) a
        request.parent_id

  unfoldable pub handle_sub_result : Answers → Option ℕ → List Step
  unfolding try_call
  handle_sub_result a id = try_call accept_sub accept_sub_result a id
