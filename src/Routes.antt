-- ===== src/Routes.antt =====
-- The HTTP handlers (src/routes.rs), on the unlocked node.
pub mod Library
pub mod Amounts
pub mod Swaps
pub mod Maker
pub mod Payments
pub mod Channels
pub mod Runs
