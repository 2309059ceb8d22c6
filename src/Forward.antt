-- ===== src/Forward.antt =====
-- proxyd/backend.go: how a group of backends serves a list of requests.
pub mod Sorting
pub mod SortOrder
pub mod Send
pub mod Counts
pub mod Receipts
pub mod InOrder
pub mod GroupOrder
pub mod Overrides
pub mod Order
pub mod Attempts
pub mod Failover
pub mod Balance
pub mod Group
mod Tests
