-- ===== src/PyText.antt =====
-- Python's `str` as a list of code points, with the methods that the program calls.
mod Chars
pub mod Lines
pub mod Strip
pub mod Regex
unfoldable pub use Chars.*
