-- ===== src/Tests.antt =====
-- The theorems at concrete inputs, and runs of the repository's own unit tests.
mod Stringpack
mod Bitvec
mod Merging
mod Grouping
mod Dictionary
mod Compression
mod Columns
mod Filtering
mod Ingest
mod Tables
mod Nulls
mod Planning
mod TopN
mod Aggregating
mod Partitioned
