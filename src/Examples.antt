-- ===== src/Examples.antt =====
-- Concrete runs of the services, at which the theorems apply.
pub mod Data
pub mod Runs
mod Witnesses
mod Payments
mod Pins
mod Beneficiaries
mod Cards
mod Sessions
mod Deposits
mod Login
mod Signup
mod Savings
mod Recovery
mod Recurring
mod Totp
