-- ===== src/Text.antt =====
-- Rust's `String` and `&str`: a text is the list of its bytes.
mod Equality
mod Split
pub mod Decimal
unfoldable pub use Equality.*
unfoldable pub use Split.*
