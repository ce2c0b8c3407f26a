-- ===== src/Dashboard.antt =====
-- The dashboard's store (packages/dashboard/src/store/index.js): one state, one function for each
-- action that the store exports.
pub mod State
pub mod Feed
pub mod Auctions
pub mod Agents
pub mod Dispatch
pub mod Treasury
pub mod Bounds
pub mod Dedup
pub mod Statuses
pub mod AuctionType
pub mod Canonical
mod Examples
