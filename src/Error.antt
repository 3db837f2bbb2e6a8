-- ===== src/Error.antt =====
-- The node's errors (src/error.rs): the variants, their messages, and the HTTP responses.
mod Types
mod Display
mod Name
mod Status
mod RgbLib
mod Response
pub mod Laws
unfoldable pub use Types.*
unfoldable pub use Display.*
unfoldable pub use Name.*
unfoldable pub use Status.*
unfoldable pub use RgbLib.*
unfoldable pub use Response.*
