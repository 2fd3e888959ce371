-- ===== src/Ingest.antt =====
-- src/ingest: rows and columns on their way into tables.
pub mod RawCol
pub mod Buffer
