-- ===== src/Orchestrator.antt =====
-- The orchestrator (orchestrator/src): its roster, its queue of chain writes, and the handlers of its
-- messages.
pub mod Roster
pub mod Eligibility
pub mod Liveness
pub mod Address
pub mod Settlement
pub mod Payout
pub mod Shares
pub mod Payees
pub mod Payments
pub mod Settled
pub mod Bids
pub mod BidBook
pub mod Readiness
pub mod Selection
pub mod Selected
pub mod Requested
pub mod Fired
pub mod TopUp
pub mod Donors
pub mod Reserves
pub mod Filled
pub mod Winners
pub mod Fingerprint
pub mod Announced
pub mod WriteQueue
pub mod SendOrder
pub mod Lanes
pub mod Drained
pub mod Fairness
pub mod Errors
pub mod Closing
pub mod Reconcile
pub mod Discovery
pub mod Creation
pub mod Doubles
pub mod Choosing
pub mod Hydration
pub mod Rearm
pub mod Selecting
pub mod SelectRun
pub mod Pings
pub mod Market
pub mod ActiveStatus
mod Examples
mod AuctionExamples
