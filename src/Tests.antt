-- ===== src/Tests.antt =====
-- Tests: the properties at concrete inputs.
pub mod Data
pub mod Crossed
pub mod Events
pub mod Backups
pub mod Peers
pub mod Channels
pub mod Funding
pub mod Runs
pub mod Wallet
pub mod Texts
pub mod Swaps
pub mod Payments
pub mod Service
