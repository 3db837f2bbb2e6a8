-- ===== src/Swap.antt =====
-- Swaps (src/swap.rs): their data, and the swap string by which maker and taker exchange an offer.
mod Data
mod Codecs
mod Strings
pub mod Roundtrip
unfoldable pub use Data.*
unfoldable pub use Codecs.*
unfoldable pub use Strings.*
