-- ===== src/Text.antt =====
-- Go strings, and the functions of Go's standard package `strings` that the program calls.
-- A string is the list of its code points. Every byte that the program compares with is ASCII, so
-- its byte loops and these lists agree on valid UTF-8, which is what JSON and the environment give.
mod Defs
mod Trim
mod Search
unfoldable pub use Defs.*
pub use Trim.*
pub use Search.*
