-- ===== src/Text.antt =====
-- Go strings: sequences of bytes. A literal of the source is its UTF-8 encoding.
pub mod Search
pub mod Replace
pub mod Space
pub mod Order
pub mod Escape
mod Core
unfoldable pub use Core.*
