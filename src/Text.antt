-- ===== src/Text.antt =====
-- Python's `str` as the list of its code points, with the methods that the program calls.
mod Chars
mod Strip
mod Split
mod Search
pub mod Prefix
pub use Chars.*
unfoldable pub use Chars.{casefold, is_space}
pub use Strip.{strip-nil}
unfoldable pub use Strip.{lstrip_by, rstrip_by, strip_by, lstrip, rstrip, strip}
unfoldable pub use Split.{runs, words_by, split, join}
pub use Split.{close, IsWord, not_space, split-append, split-strip, split-join, split-IsWord}
unfoldable pub use Search.{starts_with, ends_with, find, is_in, strip_chars}
