-- ===== src/Mobile.antt =====
-- The mobile client (mobile/).
pub mod Api
pub mod Session
pub mod Timeline
pub mod Wallet
pub mod LiveActivity
pub mod Realtime
pub mod Payment
pub mod Entries
pub mod Register
pub mod DateValue
