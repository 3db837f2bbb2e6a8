-- ===== src/Node.antt =====
-- The unlocked node: its state, and the operations on its maps (src/ldk.rs, src/utils.rs).
mod State
mod Monad
unfoldable pub use State.*
unfoldable pub use Monad.*
pub mod Invariant
pub mod Ensures
pub mod Swaps
pub mod Payments
pub mod Channels
pub mod Intercepted
pub mod Funding
pub mod Events
