-- ===== src/MemStore.antt =====
-- src/mem_store: tables in memory, as compressed columns.
pub mod Codec
pub mod Column
pub mod Integers
pub mod Strings
pub mod Floats
pub mod ColumnBuilder
pub mod RawCol
pub mod Lru
pub mod Partition
pub mod Table
