-- ===== src/Engine.antt =====
-- src/engine: the vector operators that query plans are made of.
pub mod DataTypes
pub mod Operators
pub mod Planning
