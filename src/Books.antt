-- ===== src/Books.antt =====
-- What every call of the services keeps: the ledger's invariant, the agreement of each account's
-- balance with the ledger, and balances that are not negative.
pub mod Rules
pub mod Moves
pub mod Combine
pub mod Quiet
pub mod Initiations
pub mod Settlements
pub mod Decisions
pub mod Closed
pub mod Deliveries
pub mod Payments
pub mod Calls
pub mod Once
pub mod Lifecycle
