-- ===== src/Stringpack.antt =====
-- src/stringpack.rs: the two byte formats for columns of strings.
-- A `&str` or `Vec<u8>` is its list of bytes; an index or a slice that is out of range, which
-- panics, is `none`.
mod Base
pub mod PackedStrings
pub mod PackedBytes
pub mod IndexedPackedStrings
pub use Base.{Bytes, PackedIterator}
unfoldable pub use Base.{slice, from_slice, read_len, push_len}
