-- ===== src/Text.antt =====
-- The routines of Rust's standard library on text that the program calls. A `&str`, a `String` and
-- a `&[u8]` are their bytes; text is ASCII unless a definition says otherwise.
mod Defs
pub mod Radix
pub mod Ascii
pub mod Pieces
unfoldable pub use Defs.*
