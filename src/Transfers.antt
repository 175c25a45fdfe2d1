-- ===== src/Transfers.antt =====
-- The transfers module (transfers/): a request, its settlement, and the rescue of a stuck one.
pub mod Requests
pub mod Rows
pub mod Initiate
pub mod Settlement
pub mod Rescue
